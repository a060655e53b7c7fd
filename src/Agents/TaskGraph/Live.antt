-- ===== src/Agents/TaskGraph/Live.antt =====
-- The life of a graph of task_graph.py, from the constructor through any sequence of method calls.
use matterloop.Base.{◌≡◌, refl, String, List, [], ◌∷◌, some, Bool, true, false, elem, arith}
use matterloop.Base.Dict.{get}
use matterloop.Agents.Tasks.{
  TaskStatus, TaskSpec, TaskState, is_terminal, is_success, is_passed, belongs_to,
}
use matterloop.Agents.TaskGraph
use matterloop.Agents.TaskGraph.{
  Result, ok, err, Method, dependents_of, change_when, unlock, refresh_pending,
}
use matterloop.Agents.TaskGraph.Methods
use matterloop.Agents.TaskGraph.Cases.{change-Changed, refused, stored}
use matterloop.Agents.TaskGraph.Order.{done_in, is_executable}
use matterloop.Agents.TaskGraph.Runs.{Action, step, run, is_active, IsOrdered-run}
use matterloop.Agents.TaskGraph.Valid.{IsValid-run, succeeded_valid}
use matterloop.Agents.TaskGraph.Settled.Runs.{IsHealthy-run, no_deadlock}
use matterloop.Agents.TaskGraph.Make.{make}
use matterloop.Agents.TaskGraph.Make.Fresh.{IsSound, IsSound-make}

-- No method touches the index.
dependents-change :
    (id : String) (allowed : TaskStatus → Bool) (guard : TaskState → Bool)
    (f : TaskState → TaskState) (g : TaskGraph.TaskGraph)
    → (change_when id allowed guard f g).1.dependents ≡ g.dependents
dependents-change id allowed guard f g = elim (change-Changed id allowed guard f g) [
  | refused e q ↦ rw q refl
  | stored s found y w v q ↦ rw q refl
]

dependents-unlock :
    (id : String) (r : Result TaskState) (g : TaskGraph.TaskGraph)
    → (unlock id r g).1.dependents ≡ g.dependents
unfolding unlock refresh_pending
dependents-unlock id (err e) g = refl
dependents-unlock id (ok u) g = ground arith

dependents-step : (a : Action) (g : TaskGraph.TaskGraph) → (step a g).dependents ≡ g.dependents
unfolding step
dependents-step (Action.mark_waiting_approval id) g =
    unfold Methods.mark_waiting_approval in dependents-change id _ _ _ g
dependents-step (Action.resume_approval id) g =
    unfold Methods.resume_approval in dependents-change id _ _ _ g
dependents-step (Action.start id agent) g = unfold Methods.start in dependents-change id _ _ _ g
dependents-step (Action.begin_verification id result) g =
    unfold Methods.begin_verification in dependents-change id _ _ _ g
dependents-step (Action.record_verification id v) g =
    unfold Methods.record_verification in dependents-change id _ _ _ g
dependents-step (Action.succeed id result) g =
    unfold Methods.succeed in rw (dependents-unlock, dependents-change) refl
dependents-step (Action.retry id error result v) g =
    unfold Methods.retry in dependents-change id _ _ _ g
dependents-step (Action.fail id error result v) g =
    unfold Methods.fail in rw (dependents-unlock, dependents-change) refl
dependents-step Action.cancel_all g = unfold Methods.cancel_all in refl
dependents-step Action.recover_inflight g = unfold Methods.recover_inflight refresh_pending in refl

dependents-run :
    (actions : List Action) (g : TaskGraph.TaskGraph) → (run actions g).dependents ≡ g.dependents
unfolding run
dependents-run [] g = refl
dependents-run (a ∷ rest) g = rw (dependents-run rest (step a g)) (dependents-step a g)

-- The constructor's promises hold through any sequence of method calls, refused calls included.
pub IsSound-run :
    (actions : List Action) (tasks : List TaskSpec) (g : TaskGraph.TaskGraph)
    → make tasks ≡ ok g
    → IsSound (run actions g)
IsSound-run actions tasks g e =
    let sound = IsSound-make tasks g e in
    record {
      healthy = IsHealthy-run actions g sound.healthy;
      ordered = IsOrdered-run actions g sound.ordered;
      valid = IsValid-run actions g sound.valid;
      place = sound.place;
      acyclic = λ k d m. sound.acyclic k d (rw dependents-run at m);
    }

-- After any sequence of method calls, refused calls included, on a graph that the constructor made of
-- new tasks: as long as some task is not terminal, there is a task that is ready to run, waits for
-- approval, runs or is verified.
pub live_after_run :
    (actions : List Action) (tasks : List TaskSpec) (g : TaskGraph.TaskGraph)
    → make tasks ≡ ok g
    → (id : String) (s : TaskState) → get (run actions g).states id ≡ some s
    → is_terminal s.status ≡ false
    → (k : String) × (t : TaskState) × (get (run actions g).states k ≡ some t)
      × (is_active t.status ≡ true)
live_after_run actions tasks g e id s found o =
    let sound = IsSound-run actions tasks g e in
    no_deadlock (run actions g) sound.healthy sound.place sound.acyclic id s found o

-- After any sequence of method calls, refused calls included, on a graph that the constructor made of
-- new tasks: a task that has succeeded has a successful result of its own and a verification that
-- passed, and each of its dependencies has succeeded.
pub success_is_verified :
    (actions : List Action) (tasks : List TaskSpec) (g : TaskGraph.TaskGraph)
    → make tasks ≡ ok g
    → (id : String) (s : TaskState) → get (run actions g).states id ≡ some s
    → s.status ≡ TaskStatus.succeeded
    → (is_success s.result ≡ true)
      × (is_passed s.verification ≡ true)
      × (belongs_to s.spec.task_id s.result ≡ true)
      × ((d : String) → elem d s.spec.dependencies ≡ true → done_in (run actions g).states d ≡ true)
unfolding is_executable
success_is_verified actions tasks g e id s found q =
    let sound = IsSound-run actions tasks g e in
    let (result, verified, own) = succeeded_valid s (sound.valid.at id s found) q in
    (result, verified, own, sound.ordered.at id s found (ground (arith, q)))
