-- ===== src/Core/Loop/Invariants/Emit.antt =====
-- `_checkpoint_and_emit_many` keeps an invariant that its parts keep; the commit may use that the
-- revision has advanced.
use matterloop.Base.{
  ◌≡◌, refl, ℕ, suc, String, List, [], ◌∷◌, Bool, true, false, leb, if◌then◌else◌,
}
use matterloop.Core.Status.{LoopStatus, allowed}
use matterloop.Core.Context.{
  LoopContext, LoopEventType, LoopEvent, Outcome, returns, raises, Fault, fault, conflict,
}
use matterloop.Core.Loop.Monad.{LoopState, ◌>>=◌, pure, raise, get_context, modify, next_tick}
use matterloop.Core.Loop.Components.{Components, read_clock, lift, receive_cancels}
use matterloop.Core.Loop.Checkpoint.{
  checkpoint_and_emit_many, prepare_checkpoint, save_checkpoint, publish_all, acknowledge,
  note_event, advance_sequence, enter,
}
use matterloop.Core.Loop.Keeps.{Keeps, Keeps-bind, Keeps-lift, BaseRule, IsNeutral, keeps_rules}
use matterloop.Core.Loop.Neutral.{neutral_rules}

pub record EmitRule (P : LoopState → Type 0) : Type 0 where
  pub tick : Keeps P next_tick
  pub cancels : (rs : List String) → Keeps P (receive_cancels rs)
  pub neutral : (f : LoopContext → LoopContext) → IsNeutral f → Keeps P (modify f)
  pub advance : (t n : ℕ) → Keeps P (modify (advance_sequence t n))
  pub commit :
      (r : ℕ) (s : LoopState) → P s → leb r s.context.revision ≡ false → P (acknowledge r s).1
  pub event : (e : LoopEvent) → Keeps P (note_event e)
  pub enter :
      (t : ℕ) (target : LoopStatus) (s : LoopState)
      → P s
      → allowed s.context.status target ≡ true
      → P (record s { context = enter t target s.context; entered = target ∷ s.entered })

module _ (env : Components) {P : LoopState → Type 0} (rule : EmitRule P) where
  Keeps-tick : Keeps P next_tick
  Keeps-tick = rule.tick

  Keeps-neutral : (f : LoopContext → LoopContext) → IsNeutral f → Keeps P (modify f)
  Keeps-neutral = rule.neutral

  Keeps-event : (e : LoopEvent) → Keeps P (note_event e)
  Keeps-event = rule.event

  Keeps-advance : (t n : ℕ) → Keeps P (modify (advance_sequence t n))
  Keeps-advance = rule.advance

  Keeps-clock : Keeps P (read_clock env)
  unfolding read_clock
  Keeps-clock = search (keeps_rules, Keeps-tick)

  Keeps-prepare : (types : List LoopEventType) → Keeps P (prepare_checkpoint env types)
  unfolding prepare_checkpoint
  Keeps-prepare types = search (keeps_rules, Keeps-tick, Keeps-neutral, neutral_rules) depth 12

  -- What `save_checkpoint` does with the store's answer.
  commit_if_advanced :
      (b : Bool) (r : ℕ) (s : LoopState)
      → leb r s.context.revision ≡ b
      → P s
      → P ((if b then raise {A = Unit} (fault conflict) else acknowledge r) s).1
  unfolding raise
  commit_if_advanced true r s e p = p
  commit_if_advanced false r s e p = rule.commit r s p e

  save_with :
      (o : Outcome Fault ℕ) (s : LoopState)
      → P s
      → P
          ((do
            revision ← lift o
            if leb revision s.context.revision
                then raise (fault conflict)
                else acknowledge revision)
            s).1
  unfolding ◌>>=◌ lift pure raise
  save_with (returns r) s p = commit_if_advanced (leb r s.context.revision) r s refl p
  save_with (raises f) s p = p

  Keeps-save : Keeps P (save_checkpoint env)
  unfolding save_checkpoint ◌>>=◌ next_tick get_context
  Keeps-save = record {
    at = λ s p. save_with (env.save s.ticks s.context s.context.revision) _ (rule.tick.at s p);
  }

  Keeps-publish :
      (snapshot : LoopContext) (n : ℕ) (types : List LoopEventType)
      → Keeps P (publish_all env snapshot n types)
  unfolding publish_all
  Keeps-publish snapshot n [] = search keeps_rules
  Keeps-publish snapshot n (e ∷ es) = Keeps-bind _ _ Keeps-tick λ t.
      Keeps-bind _ _ (Keeps-event _)
        λ _. Keeps-bind _ _ (Keeps-lift (env.publish t _)) λ _. Keeps-publish snapshot (suc n) es

  Keeps-emit_many : (types : List LoopEventType) → Keeps P (checkpoint_and_emit_many env types)
  unfolding checkpoint_and_emit_many
  Keeps-emit_many [] = search keeps_rules
  Keeps-emit_many (e ∷ es) =
      search (keeps_rules, Keeps-clock, Keeps-advance, Keeps-prepare, Keeps-save, Keeps-publish)
        depth 12

  pub base_rule : BaseRule env P
  base_rule = record {
    tick = rule.tick;
    cancels = rule.cancels;
    emit = Keeps-emit_many;
    neutral = rule.neutral;
    enter = rule.enter;
  }
