-- ===== src/Core/Loop/Uncertain.antt =====
-- A run whose execution was under way when its process died (controller.py, `recover`).
use matterloop.Base.{◌≡◌, ◌⊎◌, inl, inr, refl, List, String, none, some, true}
use matterloop.Core.Status.{LoopStatus, same_status}
use matterloop.Core.Context.{LoopContext, returns}
use matterloop.Core.Loop.Monad.{LoopState, Call, ◌>>=◌, pure, next_tick, modify}
use matterloop.Core.Loop.Components.{Components, lift, receive_cancels}
use matterloop.Core.Loop.Checkpoint
use matterloop.Core.Loop.Entry
use matterloop.Core.Loop.Keeps.{Keeps, Keeps-if, Keeps-pure, BaseRule}
use matterloop.Core.Loop.Invariants.Emit.{EmitRule, base_rule}
use matterloop.Core.Loop.Invariants.Base.{base_facts}

-- The calls of components so far.
record CallsAre (cs : List Call) (s : LoopState) : Type 0 where
  same : s.calls ≡ cs

module _ (cs : List Call) where
  calls_rule : EmitRule (CallsAre cs)
  unfolding next_tick modify Checkpoint.note_event Checkpoint.acknowledge Checkpoint.enter
      receive_cancels Checkpoint.advance_sequence
  calls_rule = record {
    tick = record { at = λ s h. record { same = h.same } };
    cancels = λ rs. record { at = λ s h. record { same = h.same } };
    neutral = λ f n. record { at = λ s h. record { same = h.same } };
    advance = λ t n. record { at = λ s h. record { same = h.same } };
    commit = λ v s h _. record { same = h.same };
    event = λ e. record { at = λ s h. record { same = h.same } };
    enter = λ t target s h _. record { same = h.same };
  }

  modify-CallsAre : (f : LoopContext → LoopContext) → Keeps (CallsAre cs) (modify f)
  unfolding modify
  modify-CallsAre f = record { at = λ s h. record { same = h.same } }

  module _ (env : Components) (planner verifier : String) where
    abbrev base : BaseRule env (CallsAre cs)
    base = base_rule env calls_rule

    recovery-CallsAre : Keeps (CallsAre cs) (Entry.require_recovery env planner verifier)
    unfolding Entry.require_recovery
    recovery-CallsAre = search (base_facts, base) depth 12

    uncertain-CallsAre :
        (c : LoopContext)
        → Entry.is_uncertain env planner verifier c ≡ true
        → Keeps (CallsAre cs) (Entry.recover_unstable env planner verifier c)
    unfolding Entry.recover_unstable Checkpoint.start_active_timer
    uncertain-CallsAre c h =
        rw h (search (base_facts, base, modify-CallsAre, recovery-CallsAre) depth 12)

-- An execution whose result is not persisted, or an approval.
abbrev pub MayHaveActed : LoopContext → Type 0
MayHaveActed c =
    (c.status ≡ LoopStatus.waiting_approval)
    ⊎ ((c.status ≡ LoopStatus.executing) × (c.pending_execution ≡ none))

guarded :
    (env : Components) (planner verifier : String) (c : LoopContext)
    → MayHaveActed c
    → Entry.is_uncertain env planner verifier c ≡ true
unfolding Entry.is_uncertain same_status
guarded env planner verifier c (inl waits) = rw waits refl
guarded env planner verifier c (inr (runs, lost)) = rw (runs, lost) refl

-- Where the status of the stored checkpoint is WAITING_APPROVAL, or it is EXECUTING and no result is
-- persisted, `recover` executes no step, grants no approval and verifies nothing, whether it returns
-- or raises.
pub recover_calls_nothing :
    (env : Components) (planner verifier run_id : String) (c : LoopContext) (s : LoopState)
    → env.load s.ticks run_id ≡ returns (some c)
    → (c.status ≡ LoopStatus.waiting_approval)
      ⊎ ((c.status ≡ LoopStatus.executing) × (c.pending_execution ≡ none))
    → (Entry.recover env planner verifier run_id s).1.calls ≡ s.calls
unfolding Entry.recover Entry.load_context Entry.load lift ◌>>=◌ pure next_tick modify
    Entry.put_context
recover_calls_nothing env planner verifier run_id c s found acted =
    rw found
      ((Keeps-if _ _ _ (Keeps-pure _) (
          uncertain-CallsAre s.calls env planner verifier c
            (guarded env planner verifier c acted))).at
        _ (record { same = refl })).same
