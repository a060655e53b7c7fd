-- ===== src/Agents/TaskGraph/Runs.antt =====
-- Whole runs of a `TaskGraph` (task_graph.py): any sequence of its methods.
use matterloop.Base.{
  ◌≡◌, refl, String, List, [], ◌∷◌, Option, none, some, Bool, true, false, arith, ◌||◌,
  Option-cases, inl, inr,
}
use matterloop.Base.Dict.{Dict, get}
use matterloop.Agents.Tasks.{TaskStatus, TaskState, TaskResult, TaskVerification, is_terminal}
use matterloop.Agents.TaskGraph
use matterloop.Agents.TaskGraph.{
  Method, Result, is_in_progress, is_ready, is_succeeded, refresh_pending, unlock, change_when,
}
use matterloop.Agents.TaskGraph.Methods
use matterloop.Agents.TaskGraph.Methods.{map_states, cancelled, recovered}
use matterloop.Agents.TaskGraph.Order.{
  IsOrdered, Advances, done_in, is_executable, IsOrdered-change, IsOrdered-refresh,
  IsOrdered-unlock,
}

-- A call of a method that changes the graph.
pub data Action : Type 0 where
  mark_waiting_approval resume_approval : String → Action
  start : String → (agent_id : String) → Action
  begin_verification : String → Option TaskResult → Action
  record_verification : String → TaskVerification → Action
  succeed : String → TaskResult → Action
  retry fail : String → (error : String) → Option TaskResult → Option TaskVerification → Action
  cancel_all recover_inflight : Action

-- The graph after the call, whether it returns or raises.
unfoldable pub step : Action → TaskGraph.TaskGraph → TaskGraph.TaskGraph
step (mark_waiting_approval id) g = (Methods.mark_waiting_approval id g).1
step (resume_approval id) g = (Methods.resume_approval id g).1
step (start id agent) g = (Methods.start id agent g).1
step (begin_verification id result) g = (Methods.begin_verification id result g).1
step (record_verification id v) g = (Methods.record_verification id v g).1
step (succeed id result) g = (Methods.succeed id result g).1
step (retry id error result v) g = (Methods.retry id error result v g).1
step (fail id error result v) g = (Methods.fail id error result v g).1
step cancel_all g = (Methods.cancel_all g).1
step recover_inflight g = (Methods.recover_inflight g).1

unfoldable pub run : List Action → TaskGraph.TaskGraph → TaskGraph.TaskGraph
run [] g = g
run (a ∷ rest) g = run rest (step a g)

pub get-map_states :
    (f : TaskState → TaskState) (states : Dict TaskState) (id : String)
    → get (map_states f states) id ≡ elim (get states id) [ none ↦ none | some s ↦ some (f s) ]
unfolding map_states get
get-map_states f [] id = refl
get-map_states f ((j, s) ∷ states) id = ground (arith, get-map_states f states id)

module _ (f : TaskState → TaskState) (a : (s : TaskState) → Advances s (f s)) where
  done_in-map :
      (states : Dict TaskState) (d : String)
      → done_in states d ≡ true
      → done_in (map_states f states) d ≡ true
  unfolding done_in
  done_in-map states d h = elim (Option-cases (get states d)) [
    | inl n ↦ ground (arith, n)
    | inr (c, k) ↦ ground (arith, get-map_states f states d, k, (a c).stays_done)
  ]

  -- A change of every task.
  IsOrdered-map : (states : Dict TaskState) → IsOrdered states → IsOrdered (map_states f states)
  IsOrdered-map states o = record {
    at = λ id t e x d m. elim (Option-cases (get states id)) [
      | inl n ↦ cc (rw (get-map_states, n) at e)
      | inr (s, q) ↦
          let same : f s ≡ t = cc (rw (get-map_states, q) at e) in
          done_in-map states d (
            o.at id s q ((a s).executable_before (rw same x)) d
              (rw ((a s).same_spec) at (rw (← same) at m)))
    ];
  }

cancelled-Advances : (s : TaskState) → Advances s (cancelled s)
unfolding cancelled is_terminal is_executable
cancelled-Advances s = record {
  same_spec = ground arith;
  stays_done = ground arith;
  executable_before = ground arith;
}

recovered-Advances : (s : TaskState) → Advances s (recovered s)
unfolding recovered is_executable
recovered-Advances s = record {
  same_spec = ground arith;
  stays_done = ground arith;
  executable_before = ground arith;
}

-- A task that is ready or in progress.
abbrev pub is_active : TaskStatus → Bool
unfolding is_in_progress
is_active t = is_in_progress t || is_ready t

pub active-Advances : (s u : TaskState) → u.spec ≡ s.spec → is_active s.status ≡ true → Advances s u
unfolding is_in_progress is_executable
active-Advances s u same y = record {
  same_spec = same;
  stays_done = ground arith;
  executable_before = ground arith;
}

failed-Advances :
    (s u : TaskState)
    → u.spec ≡ s.spec
    → u.status ≡ TaskStatus.failed
    → is_succeeded s.status ≡ false
    → Advances s u
unfolding is_executable
failed-Advances s u same y n = record {
  same_spec = same;
  stays_done = ground arith;
  executable_before = ground arith;
}

-- Every method keeps the order.
IsOrdered-step :
    (a : Action) (g : TaskGraph.TaskGraph) → IsOrdered g.states → IsOrdered (step a g).states
unfolding step is_in_progress
IsOrdered-step (mark_waiting_approval id) g o =
    unfold Methods.mark_waiting_approval in
    IsOrdered-change id _ _ _ g (λ s y. active-Advances s _ refl (ground arith)) o
IsOrdered-step (resume_approval id) g o =
    unfold Methods.resume_approval in
    IsOrdered-change id _ _ _ g (λ s y. active-Advances s _ refl (ground arith)) o
IsOrdered-step (start id agent) g o =
    unfold Methods.start in
    IsOrdered-change id _ _ _ g (λ s y. active-Advances s _ refl (ground arith)) o
IsOrdered-step (begin_verification id result) g o =
    unfold Methods.begin_verification in
    IsOrdered-change id _ _ _ g (λ s y. active-Advances s _ refl (ground arith)) o
IsOrdered-step (record_verification id v) g o =
    unfold Methods.record_verification in
    IsOrdered-change id _ _ _ g (λ s y. active-Advances s _ refl (ground arith)) o
IsOrdered-step (succeed id result) g o =
    unfold Methods.succeed in
    IsOrdered-unlock id _ _
      (IsOrdered-change id _ _ _ g (λ s y. active-Advances s _ refl (ground arith)) o)
IsOrdered-step (retry id error result v) g o =
    unfold Methods.retry in IsOrdered-change id _ _ _ g (λ s y. active-Advances s _ refl y) o
IsOrdered-step (fail id error result v) g o =
    unfold Methods.fail in
    IsOrdered-unlock id _ _
      (IsOrdered-change id _ _ _ g (λ s y. failed-Advances s _ refl refl (ground arith)) o)
IsOrdered-step cancel_all g o =
    unfold Methods.cancel_all in IsOrdered-map cancelled cancelled-Advances g.states o
IsOrdered-step recover_inflight g o =
    unfold Methods.recover_inflight in
    IsOrdered-refresh _ _ (IsOrdered-map recovered recovered-Advances g.states o)

-- In a graph where every task that may run, runs or has succeeded has all its dependencies
-- succeeded, this stays so through any sequence of method calls, refused calls included.
pub IsOrdered-run :
    (actions : List Action) (g : TaskGraph.TaskGraph)
    → IsOrdered g.states
    → IsOrdered (run actions g).states
unfolding run
IsOrdered-run [] g o = o
IsOrdered-run (a ∷ rest) g o = IsOrdered-run rest (step a g) (IsOrdered-step a g o)
