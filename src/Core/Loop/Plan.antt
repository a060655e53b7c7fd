-- ===== src/Core/Loop/Plan.antt =====
-- controller.py: `_validate_plan`, `_execute_plan` and `_finish_plan_outcome`.
use matterloop.Base.{
  ℕ, zero, suc, ◌+◌, String, List, [], ◌∷◌, Option, none, some, Bool, true, false, not, ◌++◌, ◌==◌,
  map, keep, distinct, if◌then◌else◌,
}
use matterloop.Core.Status.{LoopStatus, StopReason, same_status}
use matterloop.Core.Context.{
  LoopContext, Plan, PlanStep, ExecutionResult, VerificationResult, OperationId, CompletionDecision,
  CompletionAction, HumanInteractionRequest, not_resumable, runtime_error, verification_started,
  iteration_completed, planning_started, execution_started, loop_completed, loop_blocked,
  completion_evaluation_started, completion_evaluation_completed, completion_replan_requested,
}
use matterloop.Core.Loop.Monad.{
  M, verified, ◌>>=◌, ◌>>◌, pure, raise, get_context, modify, next_tick, note_call, maybe,
}
use matterloop.Core.Loop.Components.{Components, Awaited, resolve}
use matterloop.Core.Loop.Checkpoint.{stop, transition, checkpoint_and_emit}
use matterloop.Core.Loop.Await.{await_component, stop_at_safe_boundary}
use matterloop.Core.Loop.Execute.{
  approve, execute, operation_id, same_operation, request_human_interaction,
}

pub data PlanOutcome : Type 0 where
  completed replan stopped : PlanOutcome

-- `drop`: the steps from an index on.
unfoldable pub steps_from : ℕ → List PlanStep → List PlanStep
steps_from zero steps = steps
steps_from (suc n) [] = []
steps_from (suc n) (s ∷ steps) = steps_from n steps

-- `_validate_plan`: no two steps have one identifier.
unfoldable pub valid_plan : Plan → Bool
valid_plan plan = distinct (map (λ (s : PlanStep). s.step_id) plan.steps)

-- The context after a step is verified.
unfoldable pub record_iteration :
    ℕ → PlanStep → ExecutionResult → ℕ → VerificationResult → LoopContext → LoopContext
record_iteration index step execution attempt verification c = record c {
  records =
      c.records
      ++ (record {
        cycle = c.cycle_count;
        step_index = index;
        step = step;
        execution = execution;
        verification = verification;
        attempt = attempt;
      }
          ∷ []);
  completed_steps = c.completed_steps + 1;
  current_step_index = index + 1;
  feedback = verification.feedback;
  approved_step_ids = keep (λ (i : String). not (i == step.step_id)) c.approved_step_ids;
  active_operation_id = none;
  pending_execution = none;
  pending_attempt = none;
}

unfoldable pub drop_plan : LoopContext → LoopContext
drop_plan c = record c { current_plan = none; current_step_index = 0 }

-- `context.active_operation_id != self._operation_id(context, step)` is false.
abbrev is_operation : Option OperationId → OperationId → Bool
is_operation none op = false
is_operation (some a) op = same_operation a op

-- What comes before the verification of a step: its result, or the end of the plan's execution.
pub data Prepared : Type 0 where
  ready : ExecutionResult → ℕ → Prepared
  ended : PlanOutcome → Prepared

abbrev pub after_prepare : Prepared → (ExecutionResult → ℕ → M PlanOutcome) → M PlanOutcome
after_prepare (ended outcome) verify = pure outcome
after_prepare (ready execution attempt) verify = verify execution attempt

unfoldable pub take_feedback : String → LoopContext → LoopContext
take_feedback text c = if text == "" then c else record c { feedback = text }

unfoldable pub set_index : ℕ → LoopContext → LoopContext
set_index index c = record c { current_step_index = index }

unfoldable pub clear_completion : LoopContext → LoopContext
clear_completion c = record c { completion_approved = false }

module _ (env : Components) (verifier_name : String) where
  unfoldable pub enter_if_needed : LoopStatus → M Unit
  enter_if_needed target = do
    context ← get_context
    if same_status context.status target
        then pure tt
        else transition env target (
            if same_status target LoopStatus.executing
            then execution_started
            else verification_started)

  -- `None` from `_execute` means a new plan if the state is PLANNING, and a stop otherwise.
  unfoldable pub after_execute : Option (ExecutionResult × ℕ) → M Prepared
  after_execute (some (result, attempt)) = pure (ready result attempt)
  after_execute none = do
    context ← get_context
    pure (
        ended (
          if same_status context.status LoopStatus.planning
          then PlanOutcome.replan
          else PlanOutcome.stopped))

  unfoldable pub run_step : PlanStep → M Prepared
  run_step step = do r ← execute env step; after_execute r

  unfoldable pub run_approved : PlanStep → Bool → M Prepared
  run_approved step true = run_step step
  run_approved step false = pure (ended PlanOutcome.stopped)

  unfoldable pub fresh_execution : PlanStep → M Prepared
  fresh_execution step =
      if step.requires_approval
      then (do permitted ← approve env step; run_approved step permitted)
      else (do enter_if_needed LoopStatus.executing; run_step step)

  -- A result that an earlier process persisted is verified, and not computed again.
  unfoldable pub pending_result : PlanStep → ExecutionResult → M Prepared
  pending_result step execution = do
    context ← get_context
    if is_operation context.active_operation_id (operation_id context step)
        then maybe context.pending_attempt (raise not_resumable) (λ a. pure (ready execution a))
        else raise not_resumable

  unfoldable pub prepare_step : PlanStep → M Prepared
  prepare_step step = do
    context ← get_context
    maybe context.pending_execution (fresh_execution step) (pending_result step)

  unfoldable pub verify_step : ℕ → PlanStep → ExecutionResult → ℕ → M Bool
  verify_step index step execution attempt = do
    enter_if_needed LoopStatus.verifying
    verifier ← resolve (env.verifiers verifier_name)
    t ← next_tick
    context ← get_context
    verification ← await_component env (verifier t step execution context)
    note_call (verified step verification.passed)
    modify (record_iteration index step execution attempt verification)
    checkpoint_and_emit env iteration_completed
    pure verification.passed

  unfoldable pub plan_rejected : M PlanOutcome
  plan_rejected = do
    modify drop_plan
    transition env LoopStatus.planning planning_started
    pure PlanOutcome.replan

  -- The loop of `_execute_plan` over the steps that are left, the first at `index`.
  unfoldable pub execute_steps : List PlanStep → ℕ → M PlanOutcome
  execute_steps [] index = pure PlanOutcome.completed
  execute_steps (step ∷ steps) index = do
    modify (set_index index)
    stop_seen ← stop_at_safe_boundary env
    if stop_seen then pure PlanOutcome.stopped else (do
      prepared ← prepare_step step
      after_prepare prepared λ execution attempt. do
        passed ← verify_step index step execution attempt
        if passed then execute_steps steps (suc index) else plan_rejected)

  -- `_execute_plan`
  unfoldable pub execute_plan : Plan → M PlanOutcome
  execute_plan plan = do
    context ← get_context
    execute_steps (steps_from context.current_step_index plan.steps) context.current_step_index

module _ (env : Components) where
  unfoldable pub complete : M Bool
  complete = do stop env LoopStatus.completed StopReason.completed loop_completed; pure true

  unfoldable pub ask_human : Option HumanInteractionRequest → M Bool
  ask_human none = raise runtime_error
  ask_human (some interaction) = do
    request_human_interaction env interaction StopReason.human_input_required
    pure true

  unfoldable pub follow_completion : CompletionAction → Option HumanInteractionRequest → M Bool
  follow_completion CompletionAction.accept interaction = complete
  follow_completion CompletionAction.replan interaction = do
    modify drop_plan
    checkpoint_and_emit env completion_replan_requested
    transition env LoopStatus.planning planning_started
    pure false
  follow_completion CompletionAction.request_human interaction = ask_human interaction
  follow_completion CompletionAction.stop interaction = do
    stop env LoopStatus.blocked StopReason.completion_rejected loop_blocked
    pure true

  unfoldable pub evaluate_completion : (ℕ → LoopContext → Awaited CompletionDecision) → M Bool
  evaluate_completion evaluate = do
    checkpoint_and_emit env completion_evaluation_started
    t ← next_tick
    context ← get_context
    decision ← await_component env (evaluate t context)
    modify (take_feedback decision.feedback)
    checkpoint_and_emit env completion_evaluation_completed
    follow_completion decision.action decision.interaction

  unfoldable pub finish_completed : M Bool
  finish_completed = do
    context ← get_context
    if context.completion_approved
        then (do modify clear_completion; complete)
        else maybe env.completion_evaluator complete evaluate_completion

  -- `_finish_plan_outcome`: the driver is to end.
  unfoldable pub finish_plan_outcome : PlanOutcome → M Bool
  finish_plan_outcome PlanOutcome.stopped = pure true
  finish_plan_outcome PlanOutcome.replan = pure false
  finish_plan_outcome PlanOutcome.completed = finish_completed
