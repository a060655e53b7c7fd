-- ===== src/Core/Loop/Await.antt =====
-- controller.py: `_await_component` and `_stop_at_safe_boundary`.
use matterloop.Base.{ℕ, List, [], ◌∷◌, some, Bool, true, false, if◌then◌else◌}
use matterloop.Core.Status.{LoopStatus, StopReason}
use matterloop.Core.Context.{
  LoopContext, Outcome, fault, interrupted, loop_stopped, loop_cancelled, loop_timed_out,
  loop_heartbeat, loop_blocked, Fault,
}
use matterloop.Core.Loop.Monad.{M, ◌>>=◌, ◌>>◌, pure, raise, get_context, modify, next_tick}
use matterloop.Core.Loop.Components.{
  Components, Awaited, Poll, waited, interrupt, lift, read_clock, is_cancelled,
}
use matterloop.Core.Loop.Checkpoint.{stop, checkpoint_and_emit, timeout_passed}

unfoldable pub set_heartbeat : ℕ → LoopContext → LoopContext
set_heartbeat t c = record c { last_heartbeat_at = some t }

module _ (env : Components) where
  -- A run whose cancellation is seen during a call is persisted as cancelled, and unwound.
  unfoldable pub stop_if_cancelled : M Unit
  stop_if_cancelled = do
    cancel_seen ← is_cancelled env
    if cancel_seen
        then (do
          stop env LoopStatus.cancelled StopReason.cancelled loop_cancelled
          raise loop_stopped)
        else pure tt

  unfoldable pub stop_if_timed_out : M Unit
  stop_if_timed_out = do
    t ← read_clock env
    context ← get_context
    if timeout_passed t context
        then (do
          stop env LoopStatus.timed_out StopReason.timed_out loop_timed_out
          raise loop_stopped)
        else pure tt

  unfoldable pub heartbeat : Bool → M Unit
  heartbeat due =
      if due
      then (do t ← read_clock env; modify (set_heartbeat t); checkpoint_and_emit env loop_heartbeat)
      else pure tt

  -- The rounds of the `while True` loop: one for each poll, and one in which the task is done.
  unfoldable pub await_rounds : {A : Type 0} → List Poll → Outcome Fault A → M A
  await_rounds [] outcome = do stop_if_cancelled; stop_if_timed_out; stop_if_cancelled; lift outcome
  await_rounds (waited due ∷ polls) outcome = do
    stop_if_cancelled
    stop_if_timed_out
    heartbeat due
    await_rounds polls outcome
  await_rounds (interrupt ∷ polls) outcome = do
    stop_if_cancelled
    stop_if_timed_out
    raise (fault interrupted)

  unfoldable pub await_component : {A : Type 0} → Awaited A → M A
  await_component task = await_rounds task.polls task.outcome

  unfoldable pub policy_boundary : M Bool
  policy_boundary = do
    t ← next_tick
    context ← get_context
    permitted ← lift (env.can_continue t context)
    if permitted
        then pure false
        else (do stop env LoopStatus.blocked StopReason.policy_rejected loop_blocked; pure true)

  unfoldable pub stop_at_safe_boundary : M Bool
  stop_at_safe_boundary = do
    cancel_seen ← is_cancelled env
    if cancel_seen
        then (do stop env LoopStatus.cancelled StopReason.cancelled loop_cancelled; pure true)
        else policy_boundary
