-- ===== src/Core/Loop/Invariants/Full.antt =====
-- The rule of an invariant for the whole of `_drive`. An attempt is counted only below
-- `max_attempts`, and a cycle only below `max_cycles`.
use matterloop.Base.{◌≡◌, refl, ℕ, zero, suc, ◌+◌, none, Bool, true, false, leb, if◌then◌else◌}
use matterloop.Core.Status.{LoopStatus, StopReason}
use matterloop.Core.Context
use matterloop.Core.Context.{
  LoopContext, LoopEventType, LoopError, Outcome, Fault, fault, PlanStep, ExecutionResult,
  HumanInteractionRequest, ApprovalDecision, CompletionAction, CompletionDecision, RetryAction,
  VerificationResult, resource_limit, loop_stopped, out_of_fuel, conflict, interrupted, failure,
}
use matterloop.Core.Loop.Monad.{
  M, LoopState, ◌>>=◌, ◌>>◌, pure, raise, get_context, modify, next_tick,
}
use matterloop.Core.Loop.Components.{Components, Awaited}
use matterloop.Core.Loop.Monad
use matterloop.Core.Loop.Components
use matterloop.Core.Loop.Checkpoint
use matterloop.Core.Loop.Await
use matterloop.Core.Loop.Execute
use matterloop.Core.Loop.Drive
use matterloop.Core.Loop.Keeps.{
  Keeps, Keeps-bind, Keeps-both, Keeps-and_then, Keeps-read, BaseRule, IsNeutral, keeps_rules,
}
use matterloop.Core.Loop.Neutral.{neutral_rules}
use matterloop.Core.Loop.Invariants.Emit.{EmitRule}
use matterloop.Core.Loop.Invariants.Base

-- The guards of the two counters.
abbrev pub HasAttempts : LoopState → Type 0
HasAttempts s = leb s.context.request.limits.max_attempts s.context.total_attempts ≡ false

abbrev pub HasCycles : LoopState → Type 0
HasCycles s = leb s.context.request.limits.max_cycles s.context.cycle_count ≡ false

pub record FullRule (env : Components) (P : LoopState → Type 0) : Type 0 where
  pub base : BaseRule env P
  pub attempt :
      (a : ℕ) (s : LoopState)
      → P s
      → HasAttempts s
      → P (record s { context = Execute.count_attempt a s.context })
  pub cycle :
      (s : LoopState) → P s → HasCycles s → P (record s { context = Drive.begin_cycle s.context })
  pub call : (c : Monad.Call) → Keeps P (Monad.note_call c)
  pub discard : (s : LoopState) → P s → P (Drive.discard_cancel s)

-- The test of the cycle budget survives what comes before the cycle is counted.
pub HasCycles-EmitRule : EmitRule HasCycles
unfolding next_tick modify Checkpoint.note_event Checkpoint.acknowledge Checkpoint.enter
    Monad.note_call Components.receive_cancels Checkpoint.advance_sequence
HasCycles-EmitRule = record {
  tick = record { at = λ s h. h };
  cancels = λ rs. record { at = λ s h. h };
  neutral = λ f n. record { at = λ s h. cc ((n s.context).request, (n s.context).cycle_count) };
  advance = λ t n. record { at = λ s h. h };
  commit = λ r s h _. h;
  event = λ e. record { at = λ s h. h };
  enter = λ t target s h _. h;
}

module _ {P Q : LoopState → Type 0} (env : Components) where
  pub BaseRule-both : BaseRule env P → BaseRule env Q → BaseRule env (λ s. P s × Q s)
  BaseRule-both p q = record {
    tick = Keeps-both _ p.tick q.tick;
    cancels = λ rs. Keeps-both _ (p.cancels rs) (q.cancels rs);
    emit = λ types. Keeps-both _ (p.emit types) (q.emit types);
    neutral = λ f n. Keeps-both _ (p.neutral f n) (q.neutral f n);
    enter = λ t target s h ok. (p.enter t target s h.0 ok, q.enter t target s h.1 ok);
  }

module _ (env : Components) {P : LoopState → Type 0} (rule : FullRule env P) where
  open rule use {base}

  -- The facts of `Base` at this rule.
  Keeps-neutral : (f : LoopContext → LoopContext) → IsNeutral f → Keeps P (modify f)
  Keeps-neutral = base.neutral

  Keeps-call : (c : Monad.Call) → Keeps P (Monad.note_call c)
  Keeps-call = rule.call

  Keeps-tick : Keeps P next_tick
  Keeps-tick = base.tick

  Keeps-clock : Keeps P (Components.read_clock env)
  Keeps-clock = Base.Keeps-clock env base

  Keeps-emit : (e : LoopEventType) → Keeps P (Checkpoint.checkpoint_and_emit env e)
  Keeps-emit = Base.Keeps-emit env base

  Keeps-pause : Keeps P (Checkpoint.pause_active_timer env)
  Keeps-pause = Base.Keeps-pause env base

  Keeps-transition :
      (target : LoopStatus) (e : LoopEventType) → Keeps P (Checkpoint.transition env target e)
  Keeps-transition = Base.Keeps-transition env base

  Keeps-stop :
      (status : LoopStatus) (reason : StopReason) (e : LoopEventType)
      → Keeps P (Checkpoint.stop env status reason e)
  Keeps-stop = Base.Keeps-stop env base

  Keeps-fail : (error : LoopError) → Keeps P (Checkpoint.fail env error)
  Keeps-fail = Base.Keeps-fail env base

  Keeps-await : {A : Type 0} (task : Awaited A) → Keeps P (Await.await_component env task)
  Keeps-await = Base.Keeps-await env base

  Keeps-boundary : Keeps P (Await.stop_at_safe_boundary env)
  Keeps-boundary = Base.Keeps-boundary env base

  ruleset facts = (
    keeps_rules, neutral_rules, Keeps-neutral, Keeps-call, Keeps-tick, Keeps-clock, Keeps-emit,
    Keeps-pause, Keeps-transition, Keeps-stop, Keeps-fail, Keeps-await, Keeps-boundary,
  )

  pub Keeps-request_human :
      (i : HumanInteractionRequest) (reason : StopReason)
      → Keeps P (Execute.request_human_interaction env i reason)
  unfolding Execute.request_human_interaction
  Keeps-request_human i reason = search facts depth 20

  Keeps-grant : (step : PlanStep) → Keeps P (Execute.grant env step)
  unfolding Execute.grant
  Keeps-grant step = search facts depth 12

  Keeps-defer : (step : PlanStep) → Keeps P (Execute.defer_approval env step)
  unfolding Execute.defer_approval
  Keeps-defer step = search (facts, Keeps-request_human) depth 12

  Keeps-follow_approval :
      (step : PlanStep) (d : ApprovalDecision) → Keeps P (Execute.follow_approval env step d)
  unfolding Execute.follow_approval
  Keeps-follow_approval step ApprovalDecision.approved = Keeps-grant step
  Keeps-follow_approval step ApprovalDecision.deferred = Keeps-defer step
  Keeps-follow_approval step ApprovalDecision.rejected = search facts depth 12

  Keeps-ask_approval : (step : PlanStep) → Keeps P (Execute.ask_approval env step)
  unfolding Execute.ask_approval
  Keeps-ask_approval step = search (facts, Keeps-follow_approval) depth 12

  pub Keeps-approve : (step : PlanStep) → Keeps P (Execute.approve env step)
  unfolding Execute.approve
  Keeps-approve step = search (facts, Keeps-grant, Keeps-ask_approval) depth 12

  Keeps-dispatch : (step : PlanStep) (a : ℕ) → Keeps P (Execute.dispatch env step a)
  unfolding Execute.dispatch
  Keeps-dispatch step a = search facts depth 20

  Keeps-backoff : (delay : ℕ) → Keeps P (Execute.wait_backoff env delay)
  unfolding Execute.wait_backoff
  Keeps-backoff zero = search facts
  Keeps-backoff (suc delay) = search facts depth 12

  Keeps-follow_retry :
      (e : LoopError) (action : RetryAction) (delay : ℕ)
      → Keeps P (Execute.follow_retry env e action delay)
  unfolding Execute.follow_retry
  Keeps-follow_retry e RetryAction.fail delay = search facts
  Keeps-follow_retry e RetryAction.replan delay = search facts depth 12
  Keeps-follow_retry e RetryAction.retry delay = search (facts, Keeps-backoff) depth 12

  Keeps-on_exception : (a : ℕ) (e : LoopError) → Keeps P (Execute.on_exception env a e)
  unfolding Execute.on_exception
  Keeps-on_exception a e = search (facts, Keeps-follow_retry) depth 12

  Keeps-on_resource_limit : (e : LoopError) → Keeps P (Execute.on_resource_limit env e)
  unfolding Execute.on_resource_limit
  Keeps-on_resource_limit e = search facts depth 12

  Keeps-on_error : (a : ℕ) (e : LoopError) → Keeps P (Execute.on_execution_error env a e)
  unfolding Execute.on_execution_error
  Keeps-on_error a (fault (resource_limit m)) = Keeps-on_resource_limit (fault (resource_limit m))
  Keeps-on_error a (fault interrupted) = search facts
  Keeps-on_error a loop_stopped = search facts
  Keeps-on_error a out_of_fuel = search facts
  Keeps-on_error a e = Keeps-on_exception a _

  Keeps-attempt_limit : Keeps P (Execute.attempt_limit_reached env)
  unfolding Execute.attempt_limit_reached
  Keeps-attempt_limit = search facts depth 12

  pub Keeps-attempt_body :
      (step : PlanStep) (a : ℕ)
      → Keeps P (do
        Checkpoint.checkpoint_and_emit env Context.execution_dispatched
        Monad.try_catch (Execute.dispatch env step a) (Execute.on_execution_error env a))
  Keeps-attempt_body step a = search (facts, Keeps-dispatch, Keeps-on_error) depth 12

  -- A round counts its attempt before anything else.
  run_attempt-keeps :
      (step : PlanStep) (a : ℕ) (s : LoopState)
      → P s
      → HasAttempts s
      → P (Execute.run_attempt env step a s).1
  unfolding Execute.run_attempt ◌>>=◌ modify
  run_attempt-keeps step a s p ok = (Keeps-attempt_body step a).at _ (rule.attempt a s p ok)

  module _ (fuel : ℕ) (step : PlanStep) (a : ℕ)
      (next : Keeps P (Execute.execute_rounds env fuel step (a + 1))) where
    after_round-Keeps :
        (r : Execute.Round)
        → Keeps P (Execute.after_round r (Execute.execute_rounds env fuel step (a + 1)))
    after_round-Keeps (Execute.finish r) = search facts
    after_round-Keeps Execute.again = next

    round-keeps :
        (stopped b : Bool) (s : LoopState)
        → leb s.context.request.limits.max_attempts s.context.total_attempts ≡ b
        → P s
        → P
            ((if stopped
                then pure none
                else (if b then Execute.attempt_limit_reached env else (do
                  round ← Execute.run_attempt env step a
                  Execute.after_round round (Execute.execute_rounds env fuel step (a + 1)))))
              s).1
    unfolding ◌>>=◌ pure
    round-keeps true b s e p = p
    round-keeps false true s e p = Keeps-attempt_limit.at s p
    round-keeps false false s e p =
        Keeps-and_then (Execute.run_attempt env step a s).0 _ after_round-Keeps _
          (run_attempt-keeps step a s p e)

  Keeps-execute_rounds :
      (fuel : ℕ) (step : PlanStep) (a : ℕ) → Keeps P (Execute.execute_rounds env fuel step a)
  unfolding Execute.execute_rounds
  Keeps-execute_rounds zero step a = search facts
  Keeps-execute_rounds (suc fuel) step a = Keeps-bind _ _ Keeps-boundary λ stopped.
      Keeps-read _
        λ s p. round-keeps fuel step a (Keeps-execute_rounds fuel step (a + 1)) stopped _ s refl p

  pub Keeps-execute : (step : PlanStep) → Keeps P (Execute.execute env step)
  unfolding Execute.execute
  Keeps-execute step = search (facts, Keeps-execute_rounds) depth 12
