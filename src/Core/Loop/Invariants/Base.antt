-- ===== src/Core/Loop/Invariants/Base.antt =====
-- Every action of the controller that starts no attempt and no cycle keeps what a `BaseRule` covers.
use matterloop.Base.{◌≡◌, refl, String, List, [], ◌∷◌, Bool, true, false, if◌then◌else◌}
use matterloop.Core.Status.{LoopStatus, StopReason, allowed}
use matterloop.Core.Context.{
  LoopContext, LoopEventType, LoopError, Outcome, Fault, Fault, invalid_transition,
}
use matterloop.Core.Loop.Components
use matterloop.Core.Loop.Monad.{
  M, LoopState, ◌>>=◌, ◌>>◌, pure, raise, get_context, modify, next_tick,
}
use matterloop.Core.Loop.Components.{
  Components, Awaited, Poll, waited, interrupt, read_clock, is_cancelled, lift,
}
use matterloop.Core.Loop.Checkpoint
use matterloop.Core.Loop.Await
use matterloop.Core.Loop.Keeps.{
  Keeps, Keeps-bind, Keeps-if, Keeps-get, BaseRule, IsNeutral, keeps_rules,
}
use matterloop.Core.Loop.Neutral.{neutral_rules}

-- A test that raises before an action: the action starts where the test passed.
guarded :
    {A : Type 0} (P : LoopState → Type 0) (b : Bool) (m : M A) (e : LoopError) (s : LoopState)
    → (b ≡ true → P (m s).1)
    → P s
    → P (((if b then pure tt else raise e) >> m) s).1
unfolding ◌>>=◌ pure raise
guarded P true m e s h p = h refl
guarded P false m e s h p = p

module _ (env : Components) {P : LoopState → Type 0} (rule : BaseRule env P) where
  pub Keeps-neutral : (f : LoopContext → LoopContext) → IsNeutral f → Keeps P (modify f)
  Keeps-neutral = rule.neutral

  pub Keeps-tick : Keeps P next_tick
  Keeps-tick = rule.tick

  pub Keeps-cancels : (rs : List String) → Keeps P (Components.receive_cancels rs)
  Keeps-cancels = rule.cancels

  pub Keeps-clock : Keeps P (read_clock env)
  unfolding read_clock
  Keeps-clock = search (keeps_rules, Keeps-tick)

  pub Keeps-is_cancelled : Keeps P (is_cancelled env)
  unfolding is_cancelled
  Keeps-is_cancelled = search (keeps_rules, Keeps-tick, Keeps-cancels)

  pub Keeps-emit : (e : LoopEventType) → Keeps P (Checkpoint.checkpoint_and_emit env e)
  unfolding Checkpoint.checkpoint_and_emit
  Keeps-emit e = rule.emit (e ∷ [])

  pub Keeps-pause : Keeps P (Checkpoint.pause_active_timer env)
  unfolding Checkpoint.pause_active_timer
  Keeps-pause = search (keeps_rules, Keeps-clock, Keeps-neutral, neutral_rules)

  Keeps-enter :
      (target : LoopStatus) (e : LoopEventType) (s : LoopState)
      → allowed s.context.status target ≡ true
      → P s
      → P
          ((do
            t ← read_clock env
            Checkpoint.set_status t target
            Checkpoint.checkpoint_and_emit env e)
            s).1
  unfolding ◌>>=◌ read_clock modify pure next_tick Checkpoint.set_status
  Keeps-enter target e s ok p =
      (Keeps-emit e).at _ (rule.enter (env.now s.ticks) target _ (rule.tick.at s p) ok)

  pub Keeps-transition :
      (target : LoopStatus) (e : LoopEventType) → Keeps P (Checkpoint.transition env target e)
  unfolding Checkpoint.transition Checkpoint.ensure_transition ◌>>=◌ get_context
  Keeps-transition target e = record {
    at = λ s p.
        guarded P (allowed s.context.status target)
          (do
            t ← read_clock env
            Checkpoint.set_status t target
            Checkpoint.checkpoint_and_emit env e)
          invalid_transition s (λ ok. Keeps-enter target e s ok p) p;
  }

  ruleset base_rules = (
    keeps_rules, neutral_rules, Keeps-neutral, Keeps-tick, Keeps-clock, Keeps-is_cancelled,
    Keeps-emit, Keeps-pause, Keeps-transition,
  )

  pub Keeps-stop :
      (status : LoopStatus) (reason : StopReason) (e : LoopEventType)
      → Keeps P (Checkpoint.stop env status reason e)
  unfolding Checkpoint.stop
  Keeps-stop status reason e = search base_rules

  ruleset stop_rules = (base_rules, Keeps-stop)

  pub Keeps-fail : (error : LoopError) → Keeps P (Checkpoint.fail env error)
  unfolding Checkpoint.fail
  Keeps-fail error = search stop_rules depth 12

  pub Keeps-stop_if_cancelled : Keeps P (Await.stop_if_cancelled env)
  unfolding Await.stop_if_cancelled
  Keeps-stop_if_cancelled = search stop_rules depth 12

  pub Keeps-stop_if_timed_out : Keeps P (Await.stop_if_timed_out env)
  unfolding Await.stop_if_timed_out
  Keeps-stop_if_timed_out = search stop_rules depth 12

  pub Keeps-heartbeat : (due : Bool) → Keeps P (Await.heartbeat env due)
  unfolding Await.heartbeat
  Keeps-heartbeat due = search stop_rules depth 12

  Keeps-await_rounds :
      {A : Type 0} (polls : List Poll) (o : Outcome Fault A)
      → Keeps P (Await.await_rounds env polls o)
  unfolding Await.await_rounds
  Keeps-await_rounds [] o =
      search (stop_rules, Keeps-stop_if_cancelled, Keeps-stop_if_timed_out) depth 12
  Keeps-await_rounds {A} (waited due ∷ polls) o = Keeps-bind _ _ Keeps-stop_if_cancelled λ _.
      Keeps-bind _ _ Keeps-stop_if_timed_out
        λ _. Keeps-bind _ _ (Keeps-heartbeat due) λ _. Keeps-await_rounds polls o
  Keeps-await_rounds (interrupt ∷ polls) o =
      search (stop_rules, Keeps-stop_if_cancelled, Keeps-stop_if_timed_out) depth 12

  pub Keeps-await : {A : Type 0} (task : Awaited A) → Keeps P (Await.await_component env task)
  unfolding Await.await_component
  Keeps-await task = Keeps-await_rounds task.polls task.outcome

  Keeps-policy : Keeps P (Await.policy_boundary env)
  unfolding Await.policy_boundary
  Keeps-policy = search stop_rules depth 12

  pub Keeps-boundary : Keeps P (Await.stop_at_safe_boundary env)
  unfolding Await.stop_at_safe_boundary
  Keeps-boundary = search (stop_rules, Keeps-policy) depth 12

pub ruleset base_facts = (
  keeps_rules, neutral_rules, Keeps-neutral, Keeps-tick, Keeps-clock, Keeps-emit, Keeps-pause,
  Keeps-transition, Keeps-stop, Keeps-fail, Keeps-await, Keeps-boundary,
)
