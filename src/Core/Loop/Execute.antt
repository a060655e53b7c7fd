-- ===== src/Core/Loop/Execute.antt =====
-- controller.py: `_operation_id`, `_execute`, `_approve`, `_request_human_interaction`.
use Prim.Native.String.{◌++◌ as str_append}
use matterloop.Base.{
  ℕ, zero, suc, ◌+◌, String, [], ◌∷◌, Option, none, some, Bool, true, false, leb, eqb, ◌==◌, ◌&&◌,
  elem, if◌then◌else◌,
}
use matterloop.Core.Status.{LoopStatus, StopReason, same_status}
use matterloop.Core.Context.{
  LoopContext, LoopError, fault, interrupted, resource_limit, loop_stopped, out_of_fuel,
  not_resumable, interaction_not_pending, PlanStep, ExecutionResult, OperationId, ApprovalDecision,
  RetryAction, HumanInteractionRequest, HumanInteractionKind, HumanAction, loop_blocked,
  loop_paused, human_interaction_requested, approval_granted, approval_requested, execution_started,
  execution_dispatched, execution_completed, component_retrying,
}
use matterloop.Core.Loop.Monad.{
  M, executed, granted, ◌>>=◌, ◌>>◌, pure, raise, get_context, modify, next_tick, note_call,
  try_catch, maybe,
}
use matterloop.Core.Loop.Components.{Components, lift, resolve, read_clock}
use matterloop.Core.Loop.Checkpoint.{stop, transition, checkpoint_and_emit, pause_active_timer}
use matterloop.Core.Loop.Await.{await_component, stop_at_safe_boundary}

unfoldable pub operation_id : LoopContext → PlanStep → OperationId
operation_id c step = record { run_id = c.run_id; cycle = c.cycle_count; step_id = step.step_id }

abbrev pub same_operation : OperationId → OperationId → Bool
same_operation a b = a.run_id == b.run_id && eqb a.cycle b.cycle && a.step_id == b.step_id

-- `context.active_operation_id in {None, operation_id}`
unfoldable pub may_activate : Option OperationId → OperationId → Bool
may_activate none op = true
may_activate (some a) op = same_operation a op

-- What the `try` statement of `_execute` leads to: a `return`, or another round of the loop.
pub data Round : Type 0 where
  finish : Option (ExecutionResult × ℕ) → Round
  again : Round

abbrev pub after_round : Round → M (Option (ExecutionResult × ℕ)) → M (Option (ExecutionResult × ℕ))
after_round (finish r) next = pure r
after_round again next = next

unfoldable pub set_interaction : HumanInteractionRequest → StopReason → LoopContext → LoopContext
set_interaction interaction reason c = record c {
  pending_interaction = some interaction;
  stop_reason = some reason;
}

unfoldable pub keep_result : ExecutionResult → LoopContext → LoopContext
keep_result result c = record c { pending_execution = some result }

unfoldable pub release_operation : String → LoopContext → LoopContext
release_operation text c = record c {
  active_operation_id = none;
  pending_attempt = none;
  error = text;
}

unfoldable pub abandon_plan : String → LoopContext → LoopContext
abandon_plan text c = record c {
  feedback = text;
  current_plan = none;
  current_step_index = 0;
  active_operation_id = none;
  pending_attempt = none;
}

unfoldable pub count_attempt : ℕ → LoopContext → LoopContext
count_attempt attempt c = record c {
  total_attempts = c.total_attempts + 1;
  pending_attempt = some attempt;
}

unfoldable pub activate : OperationId → LoopContext → LoopContext
activate op c = record c { active_operation_id = some op }

module _ (env : Components) where
  unfoldable pub request_human_interaction : HumanInteractionRequest → StopReason → M Unit
  request_human_interaction interaction reason = do
    context ← get_context
    maybe context.pending_interaction (pure tt) (λ _. raise interaction_not_pending)
    modify (set_interaction interaction reason)
    pause_active_timer env
    if same_status context.status LoopStatus.paused
        then checkpoint_and_emit env human_interaction_requested
        else transition env LoopStatus.paused human_interaction_requested
    checkpoint_and_emit env loop_paused

  -- The request for a deferred approval.
  unfoldable pub approval_request : PlanStep → String → ℕ → HumanInteractionRequest
  approval_request step id t = record {
    kind = HumanInteractionKind.approval;
    prompt = str_append "是否批准执行步骤：" step.description;
    allowed_actions = HumanAction.approve ∷ HumanAction.reject ∷ HumanAction.revise ∷ [];
    interaction_id = id;
    step_id = some step.step_id;
    metadata = ("executor", step.executor) ∷ [];
    created_at = t;
  }

  unfoldable pub defer_approval : PlanStep → M Bool
  defer_approval step = do
    n ← next_tick
    t ← read_clock env
    request_human_interaction (approval_request step (env.new_id n) t) StopReason.approval_deferred
    pure false

  unfoldable pub grant : PlanStep → M Bool
  grant step = do
    note_call (granted step)
    checkpoint_and_emit env approval_granted
    transition env LoopStatus.executing execution_started
    pure true

  unfoldable pub follow_approval : PlanStep → ApprovalDecision → M Bool
  follow_approval step ApprovalDecision.approved = grant step
  follow_approval step ApprovalDecision.deferred = defer_approval step
  follow_approval step ApprovalDecision.rejected = do
    stop env LoopStatus.blocked StopReason.approval_rejected loop_blocked
    pure false

  unfoldable pub ask_approval : PlanStep → M Bool
  ask_approval step = do
    transition env LoopStatus.waiting_approval approval_requested
    t ← next_tick
    context ← get_context
    decision ← await_component env (env.approval_gate t step context)
    follow_approval step decision

  -- `_approve`
  unfoldable pub approve : PlanStep → M Bool
  approve step = do
    context ← get_context
    if elem step.step_id context.approved_step_ids then grant step else ask_approval step

  -- The body of the `try` statement.
  unfoldable pub dispatch : PlanStep → ℕ → M Round
  dispatch step attempt = do
    executor ← resolve (env.executors step.executor)
    t ← next_tick
    context ← get_context
    note_call (executed step)
    result ← await_component env (executor t step context)
    modify (keep_result result)
    checkpoint_and_emit env execution_completed
    pure (finish (some (result, attempt)))

  -- `except ResourceLimitExceededError`
  unfoldable pub on_resource_limit : LoopError → M Round
  on_resource_limit error = do
    modify (release_operation (env.describe error))
    stop env LoopStatus.blocked StopReason.budget_exhausted loop_blocked
    pure (finish none)

  unfoldable pub wait_backoff : ℕ → M Unit
  wait_backoff zero = pure tt
  wait_backoff (suc delay) = do t ← next_tick; await_component env (env.backoff t (suc delay))

  unfoldable pub follow_retry : LoopError → RetryAction → ℕ → M Round
  follow_retry error RetryAction.fail delay = raise error
  follow_retry error RetryAction.replan delay = do
    modify (abandon_plan (env.describe error))
    transition env LoopStatus.planning component_retrying
    pure (finish none)
  follow_retry error RetryAction.retry delay = do
    checkpoint_and_emit env component_retrying
    wait_backoff delay
    pure again

  -- `except Exception`
  unfoldable pub on_exception : ℕ → LoopError → M Round
  on_exception attempt error = do
    t ← next_tick
    context ← get_context
    decision ← lift (env.retry_policy t error attempt context)
    follow_retry error decision.action decision.delay_seconds

  -- The handlers of the `try` statement. `_LoopStopped` and `CancelledError` are no `Exception`.
  unfoldable pub on_execution_error : ℕ → LoopError → M Round
  on_execution_error attempt (fault (resource_limit m)) =
      on_resource_limit (fault (resource_limit m))
  on_execution_error attempt (fault interrupted) = raise (fault interrupted)
  on_execution_error attempt loop_stopped = raise loop_stopped
  on_execution_error attempt out_of_fuel = raise out_of_fuel
  on_execution_error attempt error = on_exception attempt error

  unfoldable pub attempt_limit_reached : M (Option (ExecutionResult × ℕ))
  attempt_limit_reached = do
    stop env LoopStatus.blocked StopReason.attempt_limit loop_blocked
    pure none

  unfoldable pub run_attempt : PlanStep → ℕ → M Round
  run_attempt step attempt = do
    modify (count_attempt attempt)
    checkpoint_and_emit env execution_dispatched
    try_catch (dispatch step attempt) (on_execution_error attempt)

  -- The `while True` loop of `_execute`.
  unfoldable pub execute_rounds : ℕ → PlanStep → ℕ → M (Option (ExecutionResult × ℕ))
  execute_rounds zero step attempt = raise out_of_fuel
  execute_rounds (suc fuel) step attempt = do
    stopped ← stop_at_safe_boundary env
    context ← get_context
    if stopped
        then pure none
        else (if leb context.request.limits.max_attempts context.total_attempts
            then attempt_limit_reached
            else (do
              round ← run_attempt step attempt
              after_round round (execute_rounds fuel step (attempt + 1))))

  -- `_execute`. Each round uses one of the run's attempts, so `max_attempts + 1` rounds are enough.
  unfoldable pub execute : PlanStep → M (Option (ExecutionResult × ℕ))
  execute step = do
    context ← get_context
    let op = operation_id context step
    if may_activate context.active_operation_id op then pure tt else raise not_resumable
    modify (activate op)
    execute_rounds (suc context.request.limits.max_attempts) step 1
