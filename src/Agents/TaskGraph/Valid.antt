-- ===== src/Agents/TaskGraph/Valid.antt =====
-- The states of a graph of task_graph.py stay valid (`TaskState.__post_init__`), so that no `replace` of
-- a whole-graph method can raise.
use matterloop.Base.{
  ◌≡◌, ℕ, zero, suc, String, List, [], ◌∷◌, some, Bool, true, arith, ◌==◌, inl, inr, Bool-cases,
  Option-cases,
}
use matterloop.Base.Dict.{Dict, get, put, get-put}
use matterloop.Agents.Tasks.{
  TaskStatus, TaskState, valid_state, valid_status, is_success, is_passed, belongs_to,
}
use matterloop.Agents.TaskGraph
use matterloop.Agents.TaskGraph.{
  Result, ok, err, is_succeeded, is_pending, is_failed_dependency, dependency_statuses, refreshed,
  visit, refresh_rounds, refresh_pending, change_when, unlock,
}
use matterloop.Agents.TaskGraph.Cases.{
  change-Changed, refused, stored, visit-Visited, missing, left, moved,
}
use matterloop.Agents.TaskGraph.Methods
use matterloop.Agents.TaskGraph.Methods.{map_states, cancelled, recovered}
use matterloop.Agents.TaskGraph.Runs.{Action, step, run, get-map_states}

pub record IsValid (states : Dict TaskState) : Type 0 where
  pub at : (id : String) (s : TaskState) → get states id ≡ some s → valid_state s ≡ true

IsValid-put :
    (states : Dict TaskState) (id : String) (u : TaskState)
    → IsValid states
    → valid_state u ≡ true
    → IsValid (put states id u)
IsValid-put states id u v y = record {
  at = λ k t e. elim (Bool-cases (id == k)) [
    | inl same ↦ let q : u ≡ t = cc (rw (get-put, same) at e) in rw (← q) y
    | inr n ↦ v.at k t (rw (get-put, n) at e)
  ];
}

IsValid-map :
    (f : TaskState → TaskState) (states : Dict TaskState)
    → ((s : TaskState) → valid_state s ≡ true → valid_state (f s) ≡ true)
    → IsValid states
    → IsValid (map_states f states)
IsValid-map f states a v = record {
  at = λ k t e. elim (Option-cases (get states k)) [
    | inl n ↦ cc (rw (get-map_states, n) at e)
    | inr (s, q) ↦
        let same : f s ≡ t = cc (rw (get-map_states, q) at e) in rw (← same) (a s (v.at k s q))
  ];
}

-- What the methods make of a valid state is valid.
refreshed_valid :
    (s u : TaskState) (ts : List TaskStatus)
    → valid_state s ≡ true
    → refreshed s ts ≡ some u
    → valid_state u ≡ true
unfolding refreshed valid_state valid_status
refreshed_valid s u ts v e = ground (arith, v, e)

cancelled_valid : (s : TaskState) → valid_state s ≡ true → valid_state (cancelled s) ≡ true
unfolding cancelled valid_state valid_status
cancelled_valid s v = ground (arith, v)

recovered_valid : (s : TaskState) → valid_state s ≡ true → valid_state (recovered s) ≡ true
unfolding recovered valid_state valid_status
recovered_valid s v = ground (arith, v)

IsValid-change :
    (id : String) (allowed : TaskStatus → Bool) (guard : TaskState → Bool)
    (f : TaskState → TaskState) (g : TaskGraph.TaskGraph)
    → IsValid g.states
    → IsValid (change_when id allowed guard f g).1.states
IsValid-change id allowed guard f g v = elim (change-Changed id allowed guard f g) [
  | refused e q ↦ rw q v
  | stored s found y h w q ↦ rw q (IsValid-put g.states id (f s) v w)
]

IsValid-visit :
    (dependents : Dict (List String)) (id : String) (rest : List String) (states : Dict TaskState)
    → IsValid states
    → IsValid (visit dependents id rest states).1
IsValid-visit dependents id rest states v = elim (visit-Visited dependents id rest states) [
  | missing q why ↦ rw q v
  | left q settled ↦ rw q v
  | moved s u ts found y q w same ↦
      rw same (IsValid-put states id u v (refreshed_valid s u ts (v.at id s found) w))
]

IsValid-rounds :
    (fuel : ℕ) (dependents : Dict (List String)) (pending : List String) (states : Dict TaskState)
    → IsValid states
    → IsValid (refresh_rounds fuel dependents pending states).1
unfolding refresh_rounds
IsValid-rounds zero dependents pending states v = v
IsValid-rounds (suc fuel) dependents [] states v = v
IsValid-rounds (suc fuel) dependents (id ∷ rest) states v =
    next (visit dependents id rest states) (IsValid-visit dependents id rest states v)
      (λ p t. IsValid-rounds fuel dependents p t)
  where
    next :
        (r : Result (List String) × Dict TaskState)
        → IsValid r.1
        → ((p : List String) (t : Dict TaskState)
            → IsValid t
            → IsValid (refresh_rounds fuel dependents p t).1)
        → IsValid
            (elim r.0 as (λ x. Result Unit × Dict TaskState) [
              | err e ↦ (err e, r.1)
              | ok p ↦ refresh_rounds fuel dependents p r.1
            ]).1
    next (err e, t) v h = v
    next (ok p, t) v h = h p t v

IsValid-refresh :
    (ids : List String) (g : TaskGraph.TaskGraph)
    → IsValid g.states
    → IsValid (refresh_pending ids g).1.states
unfolding refresh_pending
IsValid-refresh ids g v = IsValid-rounds _ g.dependents _ g.states v

IsValid-unlock :
    (id : String) (r : Result TaskState) (g : TaskGraph.TaskGraph)
    → IsValid g.states
    → IsValid (unlock id r g).1.states
unfolding unlock
IsValid-unlock id (err e) g v = v
IsValid-unlock id (ok u) g v = elim (Option-cases (get g.dependents id)) [
  | inl n ↦ rw (n, unlock) v
  | inr (ds, q) ↦ rw (q, unlock) (IsValid-refresh ds g v)
]

IsValid-step : (a : Action) (g : TaskGraph.TaskGraph) → IsValid g.states → IsValid (step a g).states
unfolding step
IsValid-step (Action.mark_waiting_approval id) g v =
    unfold Methods.mark_waiting_approval in IsValid-change id _ _ _ g v
IsValid-step (Action.resume_approval id) g v =
    unfold Methods.resume_approval in IsValid-change id _ _ _ g v
IsValid-step (Action.start id agent) g v = unfold Methods.start in IsValid-change id _ _ _ g v
IsValid-step (Action.begin_verification id result) g v =
    unfold Methods.begin_verification in IsValid-change id _ _ _ g v
IsValid-step (Action.record_verification id w) g v =
    unfold Methods.record_verification in IsValid-change id _ _ _ g v
IsValid-step (Action.succeed id result) g v =
    unfold Methods.succeed in IsValid-unlock id _ _ (IsValid-change id _ _ _ g v)
IsValid-step (Action.retry id error result w) g v =
    unfold Methods.retry in IsValid-change id _ _ _ g v
IsValid-step (Action.fail id error result w) g v =
    unfold Methods.fail in IsValid-unlock id _ _ (IsValid-change id _ _ _ g v)
IsValid-step Action.cancel_all g v =
    unfold Methods.cancel_all in IsValid-map cancelled g.states cancelled_valid v
IsValid-step Action.recover_inflight g v =
    unfold Methods.recover_inflight in
    IsValid-refresh _ _ (IsValid-map recovered g.states recovered_valid v)

-- Any sequence of method calls, refused calls included, on a graph of valid states leaves only valid
-- states: the agent is not blank, the result is the task's own, a task that runs has an agent and an
-- attempt, and one that is verified or has succeeded has a successful result.
pub IsValid-run :
    (actions : List Action) (g : TaskGraph.TaskGraph)
    → IsValid g.states
    → IsValid (run actions g).states
unfolding run
IsValid-run [] g v = v
IsValid-run (a ∷ rest) g v = IsValid-run rest (step a g) (IsValid-step a g v)

-- A task that has succeeded.
pub succeeded_valid :
    (s : TaskState)
    → valid_state s ≡ true
    → s.status ≡ TaskStatus.succeeded
    → (is_success s.result ≡ true)
      × (is_passed s.verification ≡ true)
      × (belongs_to s.spec.task_id s.result ≡ true)
unfolding valid_state valid_status
succeeded_valid s v e = (ground (arith, v, e), ground (arith, v, e), ground (arith, v, e))
