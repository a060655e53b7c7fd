-- ===== src/Agents/TaskGraph.antt =====
-- matterloop-agents/src/python/matterloop_agents/collaboration/task_graph.py: `TaskGraph`.
pub mod Methods
pub mod Cases
pub mod Order
pub mod Runs
pub mod Valid
pub mod Settled
pub mod Make
pub mod Live
mod Tests
use matterloop.Base.{
  ℕ, zero, suc, ◌+◌, String, List, [], ◌∷◌, ◌++◌, Option, none, some, Bool, true, false, not, ltb,
  eqb, elem, any, all, keep, length, map, ◌==◌, ◌&&◌, ◌||◌, if◌then◌else◌,
}
use matterloop.Base.Dict.{Dict, get, put, values, keys}
use matterloop.Agents.Tasks.{
  TaskStatus, is_terminal, TaskSpec, TaskResult, TaskVerification, TaskState, valid_state,
  is_success, is_passed,
}

-- `_tasks` has the definitions that the states carry, and is used by the constructor only.
pub record TaskGraph : Type 0 where
  pub states : Dict TaskState
  pub dependents : Dict (List String)

pub data GraphError : Type 0 where
  invalid_graph invalid_transition value_error key_error out_of_fuel : GraphError

pub data Result (A : Type 0) : Type 0 where
  ok : A → Result A
  err : GraphError → Result A

-- A method: what it returns or raises, and the graph after it.
abbrev pub Method : Type 0 → Type 0
Method A = TaskGraph → Result A × TaskGraph

abbrev pub is_succeeded : TaskStatus → Bool
is_succeeded TaskStatus.succeeded = true
is_succeeded _ = false

abbrev pub is_pending : TaskStatus → Bool
is_pending TaskStatus.pending = true
is_pending _ = false

-- `_FAILED_DEPENDENCIES`
unfoldable pub is_failed_dependency : TaskStatus → Bool
is_failed_dependency TaskStatus.failed = true
is_failed_dependency TaskStatus.blocked = true
is_failed_dependency TaskStatus.cancelled = true
is_failed_dependency _ = false

-- `_IN_PROGRESS`
unfoldable pub is_in_progress : TaskStatus → Bool
is_in_progress TaskStatus.waiting_approval = true
is_in_progress TaskStatus.running = true
is_in_progress TaskStatus.verifying = true
is_in_progress _ = false

abbrev pub is_ready : TaskStatus → Bool
is_ready TaskStatus.ready = true
is_ready _ = false

-- `{self._states[dependency].status for dependency in ...}`; a missing one is a KeyError.
unfoldable pub dependency_statuses : Dict TaskState → List String → Option (List TaskStatus)
dependency_statuses states [] = some []
dependency_statuses states (d ∷ ds) =
    let rest = dependency_statuses states ds in
    elim (get states d) [
      | none ↦ none
      | some s ↦ elim rest [ none ↦ none | some ts ↦ some (s.status ∷ ts) ]
    ]

-- What `_refresh_pending` makes of a pending task, from the statuses of its dependencies.
unfoldable pub refreshed : TaskState → List TaskStatus → Option TaskState
unfolding is_failed_dependency
refreshed s statuses =
    if any is_failed_dependency statuses
    then some (record s {
      status = TaskStatus.blocked;
      error = "dependency did not complete successfully";
    })
    else if all is_succeeded statuses
    then some (record s { status = TaskStatus.ready })
    else none

-- `if dependent not in queued: pending.append(dependent)`. The set `queued` has the members of the
-- deque at every test.
unfoldable pub enqueue : List String → List String → List String
enqueue pending [] = pending
enqueue pending (d ∷ ds) = enqueue (if elem d pending then pending else pending ++ d ∷ []) ds

-- `dict.fromkeys`: the first occurrences.
unfoldable pub from_keys : List String → List String
unfolding enqueue
from_keys ids = enqueue [] ids

-- One round of the loop of `_refresh_pending`, for the first task of the deque: the rest of the
-- deque, and the states after it.
unfoldable pub visit :
    Dict (List String)
    → String
    → List String
    → Dict TaskState
    → Result (List String) × Dict TaskState
visit dependents id rest states = elim (get states id) [
  | none ↦ (err key_error, states)
  | some s ↦
      if is_pending s.status
      then (elim (dependency_statuses states s.spec.dependencies) [
        | none ↦ (err key_error, states)
        | some statuses ↦ elim (refreshed s statuses) [
          | none ↦ (ok rest, states)
          | some u ↦ (
            elim (get dependents id) [ none ↦ err key_error | some ds ↦ ok (enqueue rest ds) ],
            put states id u,
          )
        ]
      ])
      else (ok rest, states)
]

-- The loop of `_refresh_pending`, on fuel.
unfoldable pub refresh_rounds :
    ℕ → Dict (List String) → List String → Dict TaskState → Result Unit × Dict TaskState
refresh_rounds zero dependents pending states = (err out_of_fuel, states)
refresh_rounds (suc fuel) dependents [] states = (ok tt, states)
refresh_rounds (suc fuel) dependents (id ∷ rest) states =
    let (r, states') = visit dependents id rest states in
    elim r [
      | err e ↦ (err e, states')
      | ok pending ↦ refresh_rounds fuel dependents pending states'
    ]

-- The dependents of a task; none for an identifier that is not there.
unfoldable pub dependents_of : Dict (List String) → String → List String
dependents_of dependents id = elim (get dependents id) [ none ↦ [] | some ds ↦ ds ]

-- How many entries the tasks that are pending may still add to the deque.
unfoldable pub potential : Dict (List String) → Dict TaskState → ℕ
potential dependents [] = 0
potential dependents ((id, s) ∷ states) =
    (if is_pending s.status then length (dependents_of dependents id) else 0)
    + potential dependents states

-- `_refresh_pending`. A round takes an entry from the deque, and adds the dependents of a task only
-- when that task ceases to be pending.
unfoldable pub refresh_pending : List String → Method Unit
refresh_pending ids g =
    let pending = from_keys ids in
    let (r, states) =
      refresh_rounds (suc (length pending + potential g.dependents g.states)) g.dependents pending
        g.states in
    (r, record g { states = states })

-- `state`
unfoldable pub state : String → TaskGraph → Result TaskState
state id g = elim (get g.states id) [ none ↦ err invalid_graph | some s ↦ ok s ]

-- `_require_status`
unfoldable pub require_status : String → (TaskStatus → Bool) → TaskGraph → Result TaskState
unfolding state
require_status id allowed g = elim (state id g) [
  | err e ↦ err e
  | ok s ↦ if allowed s.status then ok s else err invalid_transition
]

-- `replace(...)`, which validates, and `self._states[task_id] = updated`.
unfoldable pub store : String → TaskState → Method TaskState
store id u g =
    if valid_state u then (ok u, record g { states = put g.states id u }) else (err value_error, g)

-- A change of the task's state under `_require_status` and a further guard.
unfoldable pub change_when :
    String → (TaskStatus → Bool) → (TaskState → Bool) → (TaskState → TaskState) → Method TaskState
unfolding require_status store
change_when id allowed guard f g = elim (require_status id allowed g) [
  | err e ↦ (err e, g)
  | ok s ↦ if guard s then store id (f s) g else (err invalid_transition, g)
]

abbrev pub change : String → (TaskStatus → Bool) → (TaskState → TaskState) → Method TaskState
change id allowed = change_when id allowed (λ s. true)

-- `self._refresh_pending(self._dependents[task_id])` after a change that went well.
unfoldable pub unlock : String → Result TaskState → Method TaskState
unfolding refresh_pending
unlock id (err e) g = (err e, g)
unlock id (ok u) g = elim (get g.dependents id) [
  | none ↦ (err key_error, g)
  | some ds ↦ let (r, g') = refresh_pending ds g in (elim r [ ok _ ↦ ok u | err e ↦ err e ], g')
]
