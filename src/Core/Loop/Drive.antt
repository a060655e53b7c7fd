-- ===== src/Core/Loop/Drive.antt =====
-- controller.py: `_run_cycles`, `_drive`, and the entry points `run`, `resume`, `recover`.
use matterloop.Base.{
  ℕ, zero, suc, ◌+◌, String, some, Bool, true, not, leb, ltb, eqb, ◌==◌, keep, length,
  if◌then◌else◌,
}
use matterloop.Core.Status.{LoopStatus, StopReason, is_terminal, same_status}
use matterloop.Core.Context.{
  LoopContext, LoopResult, result_from_context, Plan, LoopError, fault, conflict, interrupted,
  resource_limit, loop_stopped, out_of_fuel, not_resumable, runtime_error, invalid_plan,
  planning_started, plan_created, loop_blocked, loop_cancelled,
}
use matterloop.Core.Loop.Monad.{
  M, LoopState, ◌>>=◌, ◌>>◌, pure, raise, get_context, modify, next_tick, try_catch, try_finally,
  maybe,
}
use matterloop.Core.Loop.Components.{Components, resolve}
use matterloop.Core.Loop.Checkpoint.{stop, fail, set_error, transition, checkpoint_and_emit}
use matterloop.Core.Loop.Await.{await_component, stop_at_safe_boundary}
use matterloop.Core.Loop.Plan.{valid_plan, drop_plan, execute_plan, finish_plan_outcome}

-- The states in which `_drive` may leave a run.
unfoldable pub is_stable : LoopStatus → Bool
unfolding is_terminal
is_stable LoopStatus.paused = true
is_stable LoopStatus.blocked = true
is_stable s = is_terminal s

unfoldable pub begin_cycle : LoopContext → LoopContext
begin_cycle c = record c { cycle_count = c.cycle_count + 1 }

unfoldable pub set_plan : Plan → LoopContext → LoopContext
set_plan plan c = record c { current_plan = some plan; current_step_index = 0 }

unfoldable pub discard_cancel : LoopState → LoopState
discard_cancel s = record s {
  cancelled_runs = keep (λ (r : String). not (r == s.context.run_id)) s.cancelled_runs;
}

module _ (env : Components) (planner_name verifier_name : String) where
  unfoldable pub enter_planning : M Unit
  enter_planning = do
    context ← get_context
    if same_status context.status LoopStatus.planning
        then pure tt
        else transition env LoopStatus.planning planning_started

  -- `self.planners.get(planner_name).plan(context.snapshot())`, awaited.
  unfoldable pub call_planner : M Plan
  call_planner = do
    planner ← resolve (env.planners planner_name)
    t ← next_tick
    context ← get_context
    await_component env (planner t context)

  unfoldable pub request_plan : M Plan
  request_plan = do enter_planning; modify begin_cycle; call_planner

  unfoldable pub step_limit_reached : M Bool
  step_limit_reached = do
    modify drop_plan
    stop env LoopStatus.blocked StopReason.step_limit loop_blocked
    pure true

  unfoldable pub adopt_plan : Plan → M Bool
  adopt_plan plan = do
    if valid_plan plan then pure tt else raise invalid_plan
    modify (set_plan plan)
    checkpoint_and_emit env plan_created
    outcome ← execute_plan env verifier_name plan
    finish_plan_outcome env outcome

  -- One round of the `while True` loop after its guards: the driver is to end.
  unfoldable pub plan_and_execute : M Bool
  plan_and_execute = do
    plan ← request_plan
    if eqb (length plan.steps) 0 then raise invalid_plan else pure tt
    context ← get_context
    if ltb context.request.limits.max_steps_per_plan (length plan.steps)
        then step_limit_reached
        else adopt_plan plan

  unfoldable pub cycle_limit_reached : M Bool
  cycle_limit_reached = do
    stop env LoopStatus.blocked StopReason.cycle_limit loop_blocked
    pure true

  unfoldable pub run_cycle : M Bool
  run_cycle = do
    stop_seen ← stop_at_safe_boundary env
    context ← get_context
    if stop_seen
        then pure true
        else (if leb context.request.limits.max_cycles context.cycle_count
            then cycle_limit_reached
            else plan_and_execute)

  -- The `while True` loop of `_run_cycles`.
  unfoldable pub cycle_rounds : ℕ → M Unit
  cycle_rounds zero = raise out_of_fuel
  cycle_rounds (suc fuel) = do ended ← run_cycle; if ended then pure tt else cycle_rounds fuel

  -- Each round uses one of the run's cycles, so `max_cycles + 1` rounds are enough.
  unfoldable pub all_cycles : M Unit
  all_cycles = do context ← get_context; cycle_rounds (suc context.request.limits.max_cycles)

  unfoldable pub continue_plan : M Bool
  continue_plan = do
    context ← get_context
    plan ← maybe context.current_plan (raise not_resumable) pure
    outcome ← execute_plan env verifier_name plan
    finish_plan_outcome env outcome

  -- `_run_cycles`
  unfoldable pub run_cycles : Bool → M Unit
  run_cycles continue_current_plan =
      if continue_current_plan
      then (do ended ← continue_plan; if ended then pure tt else all_cycles)
      else all_cycles

  unfoldable pub check_stable : M Unit
  check_stable = do
    context ← get_context
    if is_stable context.status then pure tt else fail env runtime_error

  unfoldable pub on_cancelled : M Unit
  on_cancelled = do
    context ← get_context
    if is_terminal context.status
        then pure tt
        else stop env LoopStatus.cancelled StopReason.cancelled loop_cancelled
    raise (fault interrupted)

  -- The handlers of `_drive`, in order.
  unfoldable pub on_drive_error : LoopError → M Unit
  on_drive_error loop_stopped = pure tt
  on_drive_error (fault interrupted) = on_cancelled
  on_drive_error (fault conflict) = raise (fault conflict)
  on_drive_error (fault (resource_limit m)) = do
    modify (set_error (env.describe (fault (resource_limit m))))
    stop env LoopStatus.blocked StopReason.budget_exhausted loop_blocked
  on_drive_error out_of_fuel = raise out_of_fuel
  on_drive_error error = do fail env error; raise error

  -- `_drive`
  unfoldable pub drive : Bool → M LoopResult
  drive continue_current_plan = do
    try_finally (try_catch (do run_cycles continue_current_plan; check_stable) on_drive_error)
        discard_cancel
    context ← get_context
    pure (result_from_context context)
