-- ===== src/Agents/TaskGraph/Methods.antt =====
-- task_graph.py: the methods of `TaskGraph` that change a task's state, and its queries.
use matterloop.Base.{
  ◌+◌, String, List, [], ◌∷◌, ◌++◌, Option, none, some, Bool, true, false, not, eqb, any, all, map,
  ◌==◌, ◌&&◌, ◌||◌, if◌then◌else◌,
}
use matterloop.Base.Dict.{Dict, values}
use matterloop.Agents.Tasks.{
  TaskStatus, is_terminal, TaskResult, TaskVerification, TaskState, is_some, is_passed,
}
use matterloop.Agents.TaskGraph
use matterloop.Agents.TaskGraph.{
  Method, Result, ok, err, is_succeeded, is_pending, is_failed_dependency, is_in_progress, is_ready,
  change_when, change, unlock, refresh_pending, dependents_of,
}

-- `mark_waiting_approval`
unfoldable pub mark_waiting_approval : String → Method TaskState
mark_waiting_approval id =
    change id is_ready (λ s. record s { status = TaskStatus.waiting_approval })

abbrev pub is_waiting : TaskStatus → Bool
is_waiting TaskStatus.waiting_approval = true
is_waiting _ = false

abbrev pub is_running : TaskStatus → Bool
is_running TaskStatus.running = true
is_running _ = false

abbrev pub is_verifying : TaskStatus → Bool
is_verifying TaskStatus.verifying = true
is_verifying _ = false

-- `resume_approval`
unfoldable pub resume_approval : String → Method TaskState
resume_approval id =
    change id is_waiting (λ s. record s { status = TaskStatus.ready; approval_granted = true })

-- `start`
unfoldable pub start : String → String → Method TaskState
start id agent_id = change id is_ready (λ s. record s {
  status = TaskStatus.running;
  attempt = s.attempt + 1;
  assigned_agent = some agent_id;
  result = none;
  verification = none;
  error = "";
})

abbrev is_agent : Option String → String → Bool
is_agent none a = false
is_agent (some b) a = b == a

-- The result is the task's own, a success, and of the present agent and attempt.
unfoldable pub matches : String → TaskResult → TaskState → Bool
matches id r s =
    (r.task_id == id)
    && r.success
    && is_agent s.assigned_agent r.agent_id
    && eqb r.attempt s.attempt

abbrev pub matches_some : String → Option TaskResult → TaskState → Bool
unfolding matches
matches_some id none s = false
matches_some id (some r) s = matches id r s

-- `begin_verification`
unfoldable pub begin_verification : String → Option TaskResult → Method TaskState
unfolding matches
begin_verification id result =
    change_when id is_running (matches_some id result)
      (λ s. record s { status = TaskStatus.verifying; result = result; verification = none })

-- `record_verification`
unfoldable pub record_verification : String → TaskVerification → Method TaskState
record_verification id verification =
    change_when id is_verifying (λ s. is_some s.result)
      (λ s. record s { verification = some verification })

-- `succeed`
unfoldable pub succeed : String → TaskResult → Method TaskState
unfolding matches unlock
succeed id result g =
    let (r, g') =
      change_when id is_verifying (λ s. matches id result s && is_passed s.verification)
        (λ s. record s { status = TaskStatus.succeeded; result = some result; error = "" }) g in
    unlock id r g'

-- `retry`
unfoldable pub retry :
    String → String → Option TaskResult → Option TaskVerification → Method TaskState
unfolding is_in_progress
retry id error result verification =
    change id (λ t. is_in_progress t || is_ready t)
      (λ s. record s {
        status = TaskStatus.ready;
        assigned_agent = none;
        result = result;
        verification = verification;
        error = error;
      })

-- `fail`
unfoldable pub fail :
    String → String → Option TaskResult → Option TaskVerification → Method TaskState
unfolding is_in_progress unlock
fail id error result verification g =
    let (r, g') =
      change id (λ t. is_in_progress t || is_ready t || is_pending t)
        (λ s. record s {
          status = TaskStatus.failed;
          result = result;
          verification = verification;
          error = error;
        })
        g in
    unlock id r g'

unfoldable pub cancelled : TaskState → TaskState
unfolding is_terminal
cancelled s = if is_terminal s.status then s else record s { status = TaskStatus.cancelled }

unfoldable pub map_states : (TaskState → TaskState) → Dict TaskState → Dict TaskState
map_states f [] = []
map_states f ((id, s) ∷ states) = (id, f s) ∷ map_states f states

-- `cancel_all`. The validation of the new states always passes, see Valid.antt.
unfoldable pub cancel_all : Method Unit
unfolding map_states cancelled
cancel_all g = (ok tt, record g { states = map_states cancelled g.states })

-- What `recover_inflight` makes of a task by itself.
unfoldable pub recovered : TaskState → TaskState
recovered s =
    if is_running s.status && s.spec.replay_safe
    then record s {
      status = TaskStatus.ready;
      assigned_agent = none;
      result = none;
      verification = none;
      error = "recovered from interrupted execution";
    }
    else if is_waiting s.status || is_running s.status
    then record s {
      status = TaskStatus.blocked;
      error = "recovery requires host reconciliation; task was not replayed";
    }
    else s

-- The second branch of `recover_inflight` is taken.
unfoldable pub is_uncertain : TaskState → Bool
is_uncertain s =
    not (is_running s.status && s.spec.replay_safe) && (is_waiting s.status || is_running s.status)

unfoldable pub uncertain_ids : Dict TaskState → List String
unfolding is_uncertain
uncertain_ids [] = []
uncertain_ids ((id, s) ∷ states) =
    let rest = uncertain_ids states in if is_uncertain s then id ∷ rest else rest

unfoldable pub all_dependents : Dict (List String) → List String → List String
all_dependents dependents [] = []
all_dependents dependents (id ∷ ids) = dependents_of dependents id ++ all_dependents dependents ids

-- `recover_inflight`, without the sort of the identifiers that it returns.
unfoldable pub recover_inflight : Method (List String)
unfolding map_states recovered uncertain_ids all_dependents refresh_pending
recover_inflight g =
    let blocked = uncertain_ids g.states in
    let (r, g') =
      refresh_pending (all_dependents g.dependents blocked)
        (record g { states = map_states recovered g.states }) in
    (elim r [ ok _ ↦ ok blocked | err e ↦ err e ], g')

-- `all_succeeded`, `is_terminal` and `has_failures`
abbrev statuses : TaskGraph.TaskGraph → List TaskStatus
statuses g = map (λ (s : TaskState). s.status) (values g.states)

unfoldable pub all_succeeded : TaskGraph.TaskGraph → Bool
all_succeeded g = all is_succeeded (statuses g)

unfoldable pub all_terminal : TaskGraph.TaskGraph → Bool
unfolding is_terminal
all_terminal g = all is_terminal (statuses g)

unfoldable pub has_failures : TaskGraph.TaskGraph → Bool
unfolding is_failed_dependency
has_failures g = any is_failed_dependency (statuses g)
