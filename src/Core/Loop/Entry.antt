-- ===== src/Core/Loop/Entry.antt =====
-- controller.py: `cancel`, `run`, `resume` and `recover`.
use matterloop.Base.{
  ℕ, ◌-◌, ◌+◌, String, [], Option, none, some, Bool, true, false, not, leb, elem, ◌==◌, ◌&&◌, ◌||◌,
  length, if◌then◌else◌,
}
use matterloop.Base.Text.{strip, is_blank}
use matterloop.Core.Status.{LoopStatus, StopReason, ResumeMode, is_terminal, same_status}
use matterloop.Core.Context.{
  LoopContext, LoopRequest, LoopResult, LoopError, returns, raises, fault, conflict,
  result_from_context, same_request, value_error, not_found, not_resumable, request_conflict,
  loop_started, loop_resumed, loop_recovered, planning_started, loop_blocked,
}
use matterloop.Core.Loop.Monad.{
  M, ◌>>=◌, ◌>>◌, pure, raise, get_context, modify, next_tick, try_catch, maybe,
}
use matterloop.Core.Loop.Components.{Components, lift, read_clock, add_cancel}
use matterloop.Core.Loop.Checkpoint.{
  stop, transition, checkpoint_and_emit, start_active_timer, set_error,
}
use matterloop.Core.Loop.Await.{set_heartbeat}
use matterloop.Core.Loop.Drive.{drive}

-- `cancel`: the request is registered for the first time; a blank identifier is refused.
unfoldable pub cancel : String → M Bool
cancel run_id s = if is_blank run_id then (raises value_error, s) else (
  returns (not (elem (strip run_id) s.cancelled_runs)),
  record s { cancelled_runs = add_cancel (strip run_id) s.cancelled_runs },
)

-- `LoopContext(request=request, run_id=run_id)` at the time `t`.
unfoldable pub new_context : LoopRequest → String → ℕ → LoopContext
new_context request run_id t = record {
  request = request;
  run_id = run_id;
  status = LoopStatus.created;
  records = [];
  feedback = "";
  current_plan = none;
  current_step_index = 0;
  cycle_count = 0;
  total_attempts = 0;
  completed_steps = 0;
  stop_reason = none;
  error = "";
  pending_interaction = none;
  human_interactions = [];
  approved_step_ids = [];
  replan_required = false;
  completion_approved = false;
  active_operation_id = none;
  pending_execution = none;
  pending_attempt = none;
  last_heartbeat_at = none;
  event_sequence = 0;
  revision = 0;
  active_elapsed_seconds = 0;
  active_started_at = none;
  propagation_context = [];
  external_state_refs = [];
  started_at = t;
  updated_at = t;
}

unfoldable pub put_context : LoopContext → LoopContext → LoopContext
put_context loaded c = loaded

-- `_settle_crashed_timer`: up to the last heartbeat, or the last update.
unfoldable pub settle_crashed_timer : LoopContext → LoopContext
settle_crashed_timer c = elim c.active_started_at [
  | none ↦ c
  | some started ↦
      let observed : ℕ = elim c.last_heartbeat_at [ none ↦ c.updated_at | some h ↦ h ] in
      record c {
        active_elapsed_seconds = c.active_elapsed_seconds + (observed - started);
        active_started_at = none;
      }
]

unfoldable pub clear_stop : LoopContext → LoopContext
clear_stop c = record c { stop_reason = none; error = "" }

unfoldable pub discard_plan : LoopContext → LoopContext
discard_plan c = record c {
  current_plan = none;
  current_step_index = 0;
  approved_step_ids = [];
  completion_approved = false;
  replan_required = false;
}

-- There is an unfinished plan, or one whose completion a human has approved.
unfoldable pub can_continue_plan : LoopContext → Bool
can_continue_plan c = elim c.current_plan [
  | none ↦ false
  | some plan ↦ not (leb (length plan.steps) c.current_step_index && not c.completion_approved)
]

abbrev is_reason : StopReason → Option StopReason → Bool
is_reason StopReason.human_rejected (some StopReason.human_rejected) = true
is_reason StopReason.recovery_required (some StopReason.recovery_required) = true
is_reason _ _ = false

abbrev has_interaction : LoopContext → Bool
has_interaction c = elim c.pending_interaction [ none ↦ false | some i ↦ true ]

abbrev continues : ResumeMode → Bool
continues ResumeMode.continue = true
continues ResumeMode.replan = false

-- `effective_mode is ResumeMode.CONTINUE`
unfoldable pub effective_continue : ResumeMode → LoopContext → Bool
effective_continue mode c = not c.replan_required && continues mode

-- The guards of `resume`, in the code's order.
unfoldable pub resumable : ResumeMode → LoopContext → Bool
resumable mode c =
    if not (same_status c.status LoopStatus.paused || same_status c.status LoopStatus.blocked)
    then false
    else if has_interaction c
    then false
    else if is_reason StopReason.human_rejected c.stop_reason && continues mode
    then false
    else if is_reason StopReason.recovery_required c.stop_reason
    then false
    else not (effective_continue mode c && not (can_continue_plan c))

module _ (env : Components) where
  unfoldable pub load : String → M (Option LoopContext)
  load run_id = do t ← next_tick; lift (env.load t run_id)

  -- The loaded checkpoint becomes the context of the method; a missing one raises.
  unfoldable pub load_context : String → M LoopContext
  load_context run_id = do
    found ← load run_id
    maybe found (raise not_found) λ c. do modify (put_context c); pure c

  -- `_ensure_same_request`, and the result of the run that is there.
  unfoldable pub existing_result : LoopRequest → LoopContext → M LoopResult
  existing_result request existing =
      if same_request existing.request request
      then pure (result_from_context existing)
      else raise request_conflict

  -- `except CheckpointConflictError` of `run`
  unfoldable pub on_first_conflict : LoopRequest → String → LoopError → M (Option LoopResult)
  on_first_conflict request run_id (fault conflict) = do
    found ← load run_id
    maybe found (raise (fault conflict))
        λ existing. do r ← existing_result request existing; pure (some r)
  on_first_conflict request run_id error = raise error

module _ (env : Components) (planner verifier : String) where
  unfoldable pub start_run : LoopRequest → String → M LoopResult
  start_run request run_id = do
    t ← read_clock env
    modify (put_context (new_context request run_id t))
    start_active_timer env
    h ← read_clock env
    modify (set_heartbeat h)
    settled ←
        try_catch (do checkpoint_and_emit env loop_started; pure none)
          (on_first_conflict env request run_id)
    maybe settled (drive env planner verifier false) pure

  unfoldable pub find_or_start : LoopRequest → String → M LoopResult
  find_or_start request run_id = do
    existing ← load env run_id
    maybe existing (start_run request run_id) (existing_result env request)

  -- `run`. `run_id or create_run_id()` takes a new identifier for an empty text too.
  unfoldable pub run : LoopRequest → Option String → M LoopResult
  run request none = do t ← next_tick; start_run request (env.new_id t)
  run request (some run_id) = do
    t ← next_tick
    let actual : String = if run_id == "" then env.new_id t else run_id
    if is_blank actual then raise value_error else find_or_start request actual

  unfoldable pub resume_replan : M LoopResult
  resume_replan = do
    modify discard_plan
    transition env LoopStatus.planning loop_resumed
    checkpoint_and_emit env planning_started
    drive env planner verifier false

  unfoldable pub resume_continue : M LoopResult
  resume_continue = do checkpoint_and_emit env loop_resumed; drive env planner verifier true

  -- `resume`
  unfoldable pub resume : String → ResumeMode → M LoopResult
  resume run_id mode = do
    context ← load_context env run_id
    if resumable mode context then pure tt else raise not_resumable
    modify clear_stop
    start_active_timer env
    if effective_continue mode context then resume_continue else resume_replan

  unfoldable pub require_recovery : M LoopResult
  require_recovery = do
    stop env LoopStatus.blocked StopReason.recovery_required loop_blocked
    context ← get_context
    pure (result_from_context context)

  -- The text of `context.error` that `recover` writes, by the state of the checkpoint.
  unfoldable pub recovery_note : LoopContext → String
  recovery_note c =
      if same_status c.status LoopStatus.executing
      then "执行状态无法确认；请使用 active_operation_id 对账，MatterLoop 未重复提交"
      else "审批调用状态无法确认；MatterLoop 未重复请求审批"

  -- An execution whose result is not persisted, or an approval, may have been under way.
  unfoldable pub is_uncertain : LoopContext → Bool
  is_uncertain c =
      same_status c.status LoopStatus.executing
        && (elim c.pending_execution [ none ↦ true | some r ↦ false ])
      || same_status c.status LoopStatus.waiting_approval

  -- `continue_current_plan` of `recover`
  unfoldable pub recovers_plan : LoopContext → Bool
  recovers_plan c =
      (elim c.current_plan [ none ↦ false | some p ↦ true ])
      && (same_status c.status LoopStatus.executing || same_status c.status LoopStatus.verifying)

  unfoldable pub recover_unstable : LoopContext → M LoopResult
  recover_unstable context = do
    modify settle_crashed_timer
    start_active_timer env
    if is_uncertain context
        then (do modify (set_error (recovery_note context)); require_recovery)
        else (do
          checkpoint_and_emit env loop_recovered
          drive env planner verifier (recovers_plan context))

  -- `recover`
  unfoldable pub recover : String → M LoopResult
  recover run_id = do
    context ← load_context env run_id
    if is_terminal context.status
          || same_status context.status LoopStatus.paused
          || same_status context.status LoopStatus.blocked
        then pure (result_from_context context)
        else recover_unstable context
