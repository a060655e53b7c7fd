-- ===== src/Agents/TaskGraph/Cases.antt =====
-- task_graph.py: what a change of one task and one round of `_refresh_pending` can do.
use matterloop.Base.{
  ◌≡◌, refl, ◌⊎◌, inl, inr, String, List, none, some, Bool, true, Bool-cases, Option-cases,
}
use matterloop.Base.Dict.{Dict, get, put}
use matterloop.Agents.Tasks.{TaskStatus, TaskState, valid_state}
use matterloop.Agents.TaskGraph
use matterloop.Agents.TaskGraph.{
  Result, ok, err, GraphError, is_succeeded, is_pending, is_failed_dependency, dependency_statuses,
  refreshed, enqueue, visit, dependents_of, state, require_status, store, change_when,
}

pub Result-cases :
    {A : Type 0} (r : Result A) → ((e : GraphError) × (r ≡ err e)) ⊎ ((a : A) × (r ≡ ok a))
Result-cases (err e) = inl (e, refl)
Result-cases (ok a) = inr (a, refl)

-- The call raises and changes nothing, or it stores a valid state for a task that passes the guards.
pub data Changed (id : String) (allowed : TaskStatus → Bool) (guard : TaskState → Bool)
    (f : TaskState → TaskState) (g : TaskGraph.TaskGraph) : Type 0 where
  refused :
      (e : GraphError)
      → change_when id allowed guard f g ≡ (err e, g)
      → Changed id allowed guard f g
  stored :
      (s : TaskState)
      → get g.states id ≡ some s
      → allowed s.status ≡ true
      → guard s ≡ true
      → valid_state (f s) ≡ true
      → change_when id allowed guard f g ≡ (ok (f s), record g { states = put g.states id (f s) })
      → Changed id allowed guard f g

pub change-Changed :
    (id : String) (allowed : TaskStatus → Bool) (guard : TaskState → Bool)
    (f : TaskState → TaskState) (g : TaskGraph.TaskGraph)
    → Changed id allowed guard f g
unfolding change_when
change-Changed id allowed guard f g = elim (Option-cases (get g.states id)) [
  | inl n ↦ refused TaskGraph.invalid_graph (rw (n, change_when, require_status, state) refl)
  | inr (s, e) ↦ elim (Bool-cases (allowed s.status)) [
    | inr n ↦
        refused TaskGraph.invalid_transition
          (rw (e, change_when, require_status, state) (rw n refl))
    | inl y ↦ elim (Bool-cases (guard s)) [
      | inr n ↦
          refused TaskGraph.invalid_transition
            (rw (e, change_when, require_status, state) (rw (y, n) refl))
      | inl h ↦ elim (Bool-cases (valid_state (f s))) [
        | inr n ↦
            refused TaskGraph.value_error
              (rw (e, change_when, require_status, state) (rw (y, h, store) (rw n refl)))
        | inl v ↦
            stored s e y h v
              (rw (e, change_when, require_status, state) (rw (y, h, store) (rw v refl)))
      ]
    ]
  ]
]

-- A round leaves the states, or takes one task out of PENDING.
pub data Visited (dependents : Dict (List String)) (id : String) (rest : List String)
    (states : Dict TaskState) : Type 0 where
  missing :
      visit dependents id rest states ≡ (err TaskGraph.key_error, states)
      → (get states id ≡ none)
        ⊎ ((s : TaskState) × (get states id ≡ some s)
            × (dependency_statuses states s.spec.dependencies ≡ none))
      → Visited dependents id rest states
  left :
      visit dependents id rest states ≡ (ok rest, states)
      → ((s : TaskState)
          → get states id ≡ some s
          → is_pending s.status ≡ true
          → (ts : List TaskStatus) × (dependency_statuses states s.spec.dependencies ≡ some ts)
            × (refreshed s ts ≡ none))
      → Visited dependents id rest states
  moved :
      (s u : TaskState) (ts : List TaskStatus)
      → get states id ≡ some s
      → is_pending s.status ≡ true
      → dependency_statuses states s.spec.dependencies ≡ some ts
      → refreshed s ts ≡ some u
      → visit dependents id rest states ≡ (
        elim (get dependents id) [
          | none ↦ err TaskGraph.key_error
          | some ds ↦ ok (enqueue rest ds)
        ],
        put states id u,
      )
      → Visited dependents id rest states

pub visit-Visited :
    (dependents : Dict (List String)) (id : String) (rest : List String) (states : Dict TaskState)
    → Visited dependents id rest states
unfolding visit
visit-Visited dependents id rest states = elim (Option-cases (get states id)) [
  | inl n ↦ missing (rw (n, visit) refl) (inl n)
  | inr (s, e) ↦ elim (Bool-cases (is_pending s.status)) [
    | inr n ↦ left (rw (e, visit) (rw n refl)) (λ t f p. cc)
    | inl y ↦ elim (Option-cases (dependency_statuses states s.spec.dependencies)) [
      | inl n ↦ missing (rw (e, visit) (rw (y, n) refl)) (inr (s, e, n))
      | inr (ts, q) ↦ elim (Option-cases (refreshed s ts)) [
        | inl n ↦
            left (rw (e, visit) (rw (y, q) (rw n refl)))
              (λ t f p. let same : t ≡ s = cc in (ts, rw same q, rw same n))
        | inr (u, w) ↦ moved s u ts e y q w (rw (e, visit) (rw (y, q) (rw w refl)))
      ]
    ]
  ]
]

pub dependents_of-found :
    (dependents : Dict (List String)) (id : String) (ds : List String)
    → get dependents id ≡ some ds
    → dependents_of dependents id ≡ ds
unfolding dependents_of
dependents_of-found dependents id ds e = rw (e, dependents_of) refl
