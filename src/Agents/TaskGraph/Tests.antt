-- ===== src/Agents/TaskGraph/Tests.antt =====
-- Task graphs of two tasks, and the theorems at them.
use matterloop.Base.{◌≡◌, refl, ◌↔◌, String, List, [], ◌∷◌, ◌++◌, elem, some, true, false}
use matterloop.Base.Dict.{get, put}
use matterloop.Base.Int.{pos}
use matterloop.Agents.Tasks.{
  TaskStatus, TaskSpec, TaskState, TaskResult, TaskVerification, is_success, is_passed, belongs_to,
  initial_state, is_terminal, valid_state,
}
use matterloop.Base.Text.{is_blank}
use matterloop.Agents.TaskGraph
use matterloop.Agents.TaskGraph.{Result, ok, err}
use matterloop.Agents.TaskGraph.Methods
use matterloop.Agents.TaskGraph.Order.{IsOrdered, done_in}
use matterloop.Agents.TaskGraph.Runs.{Action, step, run, is_active, IsOrdered-run}
use matterloop.Agents.TaskGraph.Settled.Steps.{IsHealthy}
use matterloop.Agents.TaskGraph.Settled.Runs.{IsHealthy-run}
use matterloop.Agents.TaskGraph.Make.{make}
use matterloop.Agents.TaskGraph.Make.Fresh.{IsSound, IsSound-make}
use matterloop.Agents.TaskGraph.Make.Accepts.{IsAcyclic, make_iff_IsAcyclic}
use matterloop.Agents.TaskGraph.Live.{live_after_run, success_is_verified}

abbrev task : String → List String → TaskSpec
task id deps = record {
  task_id = id;
  description = "work";
  capability = "general";
  dependencies = deps;
  acceptance_criteria = [];
  requires_approval = false;
  priority = pos 0;
  metadata = [];
  replay_safe = true;
}

-- `b` depends on `a`.
abbrev two_tasks : List TaskSpec
two_tasks = task "a" [] ∷ task "b" ("a" ∷ []) ∷ []

abbrev graph : List TaskSpec → TaskGraph.TaskGraph
graph tasks = elim (make tasks) [ err e ↦ record { states = []; dependents = [] } | ok g ↦ g ]

two_made : make two_tasks ≡ ok (graph two_tasks)
unfolding make get put
two_made = refl

abbrev result : TaskResult
result = record {
  task_id = "a";
  agent_id = "w";
  success = true;
  output = "done";
  artifacts = [];
  error = "";
  attempt = 1;
  metadata = [];
}

-- The second `start` is refused.
abbrev calls : List Action
calls =
    Action.start "a" "w" ∷ Action.start "a" "v" ∷ Action.begin_verification "a" (some result) ∷ []

IsSound-make_example : IsSound (graph two_tasks)
IsSound-make_example = IsSound-make two_tasks (graph two_tasks) two_made

two_tasks-IsSound : IsSound (graph two_tasks)
two_tasks-IsSound = IsSound-make two_tasks (graph two_tasks) two_made

IsHealthy-run_example : IsHealthy (run calls (graph two_tasks))
IsHealthy-run_example = IsHealthy-run calls (graph two_tasks) (two_tasks-IsSound.healthy)

IsOrdered-run_example : IsOrdered (run calls (graph two_tasks)).states
IsOrdered-run_example = IsOrdered-run calls (graph two_tasks) (two_tasks-IsSound.ordered)

abbrev waiting : TaskState
waiting = initial_state (task "b" ("a" ∷ [])) TaskStatus.pending

b_waits : get (run calls (graph two_tasks)).states "b" ≡ some waiting
unfolding make get put run step Methods.start Methods.begin_verification TaskGraph.change_when
    valid_state is_blank
b_waits = refl

live_after_run_example :
    (k : String) × (t : TaskState) × (get (run calls (graph two_tasks)).states k ≡ some t)
    × (is_active t.status ≡ true)
unfolding is_terminal initial_state
live_after_run_example =
    live_after_run calls two_tasks (graph two_tasks) two_made "b" waiting b_waits refl

abbrev passed : TaskVerification
passed = record { passed = true; feedback = ""; evidence = []; failed_criteria = [] }

abbrev all_calls : List Action
all_calls =
    calls
    ++ Action.record_verification "a" passed ∷ Action.succeed "a" result ∷ Action.start "b" "w" ∷ []

abbrev a_state : TaskState
a_state = record {
  spec = task "a" [];
  status = TaskStatus.succeeded;
  attempt = 1;
  approval_granted = false;
  assigned_agent = some "w";
  result = some result;
  verification = some passed;
  error = "";
}

a_succeeds : get (run all_calls (graph two_tasks)).states "a" ≡ some a_state
unfolding make get put run step Methods.start Methods.begin_verification Methods.record_verification
    Methods.succeed TaskGraph.change_when TaskGraph.unlock TaskGraph.refresh_rounds valid_state
    is_blank TaskGraph.visit TaskGraph.dependency_statuses TaskGraph.refreshed TaskGraph.potential
    TaskGraph.dependents_of
a_succeeds = refl

success_is_verified_example :
    (is_success a_state.result ≡ true)
    × (is_passed a_state.verification ≡ true)
    × (belongs_to "a" a_state.result ≡ true)
    × ((d : String) → elem d [] ≡ true → done_in (run all_calls (graph two_tasks)).states d ≡ true)
success_is_verified_example =
    success_is_verified all_calls two_tasks (graph two_tasks) two_made "a" a_state a_succeeds refl

make_iff_IsAcyclic_example :
    ((g : TaskGraph.TaskGraph) × (make two_tasks ≡ ok g)) ↔ IsAcyclic two_tasks
make_iff_IsAcyclic_example = make_iff_IsAcyclic two_tasks

-- Two tasks that depend on each other are refused.
cycle_refused : make (task "a" ("b" ∷ []) ∷ task "b" ("a" ∷ []) ∷ []) ≡ err TaskGraph.invalid_graph
unfolding make get put
cycle_refused = refl
