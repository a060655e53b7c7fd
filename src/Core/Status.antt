-- ===== src/Core/Status.antt =====
-- matterloop-core/src/python/matterloop_core/state/machine.py: the states of a run, why it stops,
-- and the table of permitted transitions.
pub mod Walks
mod Tests
use matterloop.Base.{Bool, true, false, ℕ, eqb}

pub data LoopStatus : Type 0 where
  created planning executing verifying waiting_approval paused : LoopStatus
  completed blocked cancelled timed_out failed : LoopStatus

unfoldable pub is_terminal : LoopStatus → Bool
is_terminal LoopStatus.completed = true
is_terminal LoopStatus.cancelled = true
is_terminal LoopStatus.timed_out = true
is_terminal LoopStatus.failed = true
is_terminal _ = false

pub data StopReason : Type 0 where
  completed policy_rejected approval_rejected approval_deferred : StopReason
  human_input_required human_rejected completion_rejected : StopReason
  cycle_limit attempt_limit step_limit cancelled timed_out : StopReason
  component_error budget_exhausted recovery_required : StopReason

pub data ResumeMode : Type 0 where
  continue replan : ResumeMode

-- `target in _ALLOWED_TRANSITIONS[current]`
unfoldable pub allowed : (current target : LoopStatus) → Bool
allowed LoopStatus.created LoopStatus.planning = true
allowed LoopStatus.created LoopStatus.blocked = true
allowed LoopStatus.created LoopStatus.cancelled = true
allowed LoopStatus.created LoopStatus.timed_out = true
allowed LoopStatus.created LoopStatus.failed = true
allowed LoopStatus.planning LoopStatus.waiting_approval = true
allowed LoopStatus.planning LoopStatus.executing = true
allowed LoopStatus.planning LoopStatus.blocked = true
allowed LoopStatus.planning LoopStatus.cancelled = true
allowed LoopStatus.planning LoopStatus.timed_out = true
allowed LoopStatus.planning LoopStatus.failed = true
allowed LoopStatus.waiting_approval LoopStatus.executing = true
allowed LoopStatus.waiting_approval LoopStatus.paused = true
allowed LoopStatus.waiting_approval LoopStatus.blocked = true
allowed LoopStatus.waiting_approval LoopStatus.cancelled = true
allowed LoopStatus.waiting_approval LoopStatus.timed_out = true
allowed LoopStatus.waiting_approval LoopStatus.failed = true
allowed LoopStatus.executing LoopStatus.planning = true
allowed LoopStatus.executing LoopStatus.blocked = true
allowed LoopStatus.executing LoopStatus.verifying = true
allowed LoopStatus.executing LoopStatus.cancelled = true
allowed LoopStatus.executing LoopStatus.timed_out = true
allowed LoopStatus.executing LoopStatus.failed = true
allowed LoopStatus.verifying LoopStatus.planning = true
allowed LoopStatus.verifying LoopStatus.waiting_approval = true
allowed LoopStatus.verifying LoopStatus.executing = true
allowed LoopStatus.verifying LoopStatus.completed = true
allowed LoopStatus.verifying LoopStatus.paused = true
allowed LoopStatus.verifying LoopStatus.blocked = true
allowed LoopStatus.verifying LoopStatus.cancelled = true
allowed LoopStatus.verifying LoopStatus.timed_out = true
allowed LoopStatus.verifying LoopStatus.failed = true
allowed LoopStatus.paused LoopStatus.planning = true
allowed LoopStatus.paused LoopStatus.waiting_approval = true
allowed LoopStatus.paused LoopStatus.executing = true
allowed LoopStatus.paused LoopStatus.completed = true
allowed LoopStatus.paused LoopStatus.blocked = true
allowed LoopStatus.paused LoopStatus.cancelled = true
allowed LoopStatus.paused LoopStatus.timed_out = true
allowed LoopStatus.paused LoopStatus.failed = true
allowed LoopStatus.blocked LoopStatus.planning = true
allowed LoopStatus.blocked LoopStatus.waiting_approval = true
allowed LoopStatus.blocked LoopStatus.executing = true
allowed LoopStatus.blocked LoopStatus.cancelled = true
allowed LoopStatus.blocked LoopStatus.timed_out = true
allowed LoopStatus.blocked LoopStatus.failed = true
allowed _ _ = false

-- The tests `status is X` compare members of an enum.
abbrev status_code : LoopStatus → ℕ
status_code LoopStatus.created = 0
status_code LoopStatus.planning = 1
status_code LoopStatus.executing = 2
status_code LoopStatus.verifying = 3
status_code LoopStatus.waiting_approval = 4
status_code LoopStatus.paused = 5
status_code LoopStatus.completed = 6
status_code LoopStatus.blocked = 7
status_code LoopStatus.cancelled = 8
status_code LoopStatus.timed_out = 9
status_code LoopStatus.failed = 10

unfoldable pub same_status : LoopStatus → LoopStatus → Bool
same_status a b = eqb (status_code a) (status_code b)
