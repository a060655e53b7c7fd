-- ===== src/Agents/TaskGraph/Order.antt =====
-- Tasks run in the order of their dependencies, in task_graph.py: the invariant that
-- `_validate_restored_dependencies` tests, through every method.
use matterloop.Base.{
  ◌≡◌, ℕ, zero, suc, String, List, [], ◌∷◌, none, some, Bool, true, false, elem, any, all, arith,
  eq_iff, inl, inr, Bool-cases, Option-cases,
}
use matterloop.Base.Dict.{Dict, get, put, get-put}
use matterloop.Agents.Tasks.{TaskStatus, TaskState}
use matterloop.Agents.TaskGraph
use matterloop.Agents.TaskGraph.{
  Result, ok, err, Method, is_succeeded, is_pending, is_failed_dependency, dependency_statuses,
  refreshed, visit, refresh_rounds, refresh_pending, change_when, unlock,
}
use matterloop.Agents.TaskGraph.Cases.{
  change-Changed, refused, stored, visit-Visited, missing, left, moved,
}

-- The states in `executable` of `_validate_restored_dependencies`.
unfoldable pub is_executable : TaskStatus → Bool
is_executable TaskStatus.ready = true
is_executable TaskStatus.waiting_approval = true
is_executable TaskStatus.running = true
is_executable TaskStatus.verifying = true
is_executable TaskStatus.succeeded = true
is_executable _ = false

-- The task is there and has succeeded.
unfoldable pub done_in : Dict TaskState → String → Bool
done_in states d = elim (get states d) [ none ↦ false | some s ↦ is_succeeded s.status ]

-- A task that may run, runs or has run has all its dependencies done.
pub record IsOrdered (states : Dict TaskState) : Type 0 where
  pub at :
      (id : String) (s : TaskState)
      → get states id ≡ some s
      → is_executable s.status ≡ true
      → (d : String) → elem d s.spec.dependencies ≡ true
      → done_in states d ≡ true

-- A change of one task that the invariant allows.
pub record Advances (s u : TaskState) : Type 0 where
  pub same_spec : u.spec ≡ s.spec
  pub stays_done : is_succeeded s.status ≡ true → is_succeeded u.status ≡ true
  pub executable_before : is_executable u.status ≡ true → is_executable s.status ≡ true

module _ (states : Dict TaskState) (id : String) (s u : TaskState) (found : get states id ≡ some s)
    (stays_done : is_succeeded s.status ≡ true → is_succeeded u.status ≡ true) where
  done_in-put : (d : String) → done_in states d ≡ true → done_in (put states id u) d ≡ true
  unfolding done_in
  done_in-put d h = ground (arith, get-put states id d u, found, stays_done, eq_iff id d)

  IsOrdered-put :
      IsOrdered states
      → ((d : String)
          → is_executable u.status ≡ true
          → elem d u.spec.dependencies ≡ true
          → done_in states d ≡ true)
      → IsOrdered (put states id u)
  IsOrdered-put o done = record {
    at = λ k t e x d m. done_in-put d (
        ground
          (arith, get-put states id k u, done d, λ (q : get states k ≡ some t). o.at k t q x d m));
  }

-- The statuses of the dependencies say which are done.
all_done :
    (states : Dict TaskState) (ds : List String) (ts : List TaskStatus)
    → dependency_statuses states ds ≡ some ts
    → all is_succeeded ts ≡ true
    → (d : String) → elem d ds ≡ true
    → done_in states d ≡ true
unfolding dependency_statuses done_in
all_done states [] ts e h d m = cc
all_done states (c ∷ ds) ts e h d m = elim (Option-cases (get states c)) [
  | inl n ↦ ground (arith, n, e)
  | inr (s, f) ↦ elim (Option-cases (dependency_statuses states ds)) [
    | inl n ↦ ground (arith, f, n, e)
    | inr (rest, g) ↦ ground (
      arith,
      f,
      g,
      e,
      eq_iff d c,
      λ (w : all is_succeeded rest ≡ true) (q : elem d ds ≡ true). all_done states ds rest g w d q,
    )
  ]
]

-- A change that `Advances` allows keeps the order.
IsOrdered-advance :
    (states : Dict TaskState) (id : String) (s u : TaskState)
    → get states id ≡ some s
    → Advances s u
    → IsOrdered states
    → IsOrdered (put states id u)
IsOrdered-advance states id s u found a o =
    IsOrdered-put states id s u found a.stays_done o
      (λ d x m. o.at id s found (a.executable_before x) d (rw (a.same_spec) at m))

pub IsOrdered-change :
    (id : String) (allowed : TaskStatus → Bool) (guard : TaskState → Bool)
    (f : TaskState → TaskState) (g : TaskGraph.TaskGraph)
    → ((s : TaskState) → allowed s.status ≡ true → Advances s (f s))
    → IsOrdered g.states
    → IsOrdered (change_when id allowed guard f g).1.states
IsOrdered-change id allowed guard f g a o = elim (change-Changed id allowed guard f g) [
  | refused e q ↦ rw q o
  | stored s found y h v q ↦ rw q (IsOrdered-advance g.states id s (f s) found (a s y) o)
]

-- What `_refresh_pending` stores: a blocked task, or a ready one whose dependencies are done.
pub refreshed_done :
    (states : Dict TaskState) (s u : TaskState) (ts : List TaskStatus)
    → dependency_statuses states s.spec.dependencies ≡ some ts
    → refreshed s ts ≡ some u
    → (u.spec ≡ s.spec)
      × ((d : String)
          → is_executable u.status ≡ true
          → elem d s.spec.dependencies ≡ true
          → done_in states d ≡ true)
unfolding refreshed is_executable
refreshed_done states s u ts q w = elim (Bool-cases (any is_failed_dependency ts)) [
  | inl y ↦
      let e : some (record s {
        status = TaskStatus.blocked;
        error = "dependency did not complete successfully";
      })
          ≡ some u =
        rw y at w in
      (cc, λ d x m. cc)
  | inr n ↦ elim (Bool-cases (all is_succeeded ts)) [
    | inr m ↦ cc (rw (n, m) at w)
    | inl y ↦
        let e : some (record s { status = TaskStatus.ready }) ≡ some u = rw (n, y) at w in
        (cc, λ d x m. all_done states s.spec.dependencies ts q y d m)
  ]
]

IsOrdered-visit :
    (dependents : Dict (List String)) (id : String) (rest : List String) (states : Dict TaskState)
    → IsOrdered states
    → IsOrdered (visit dependents id rest states).1
IsOrdered-visit dependents id rest states o = elim (visit-Visited dependents id rest states) [
  | missing q why ↦ rw q o
  | left q settled ↦ rw q o
  | moved s u ts found y q w same ↦
      let (same_spec, done) = refreshed_done states s u ts q w in
      rw same (
        IsOrdered-put states id s u found (λ h. ground arith) o
          (λ d x m. done d x (rw same_spec at m)))
]

IsOrdered-rounds :
    (fuel : ℕ) (dependents : Dict (List String)) (pending : List String) (states : Dict TaskState)
    → IsOrdered states
    → IsOrdered (refresh_rounds fuel dependents pending states).1
unfolding refresh_rounds
IsOrdered-rounds zero dependents pending states o = o
IsOrdered-rounds (suc fuel) dependents [] states o = o
IsOrdered-rounds (suc fuel) dependents (id ∷ rest) states o =
    go (visit dependents id rest states).0 (visit dependents id rest states).1
      (IsOrdered-visit dependents id rest states o)
      (λ pending t. IsOrdered-rounds fuel dependents pending t)
  where
    go :
        (r : Result (List String)) (t : Dict TaskState)
        → IsOrdered t
        → ((pending : List String) (v : Dict TaskState)
            → IsOrdered v
            → IsOrdered (refresh_rounds fuel dependents pending v).1)
        → IsOrdered
            (elim r as (λ x. Result Unit × Dict TaskState) [
              | err e ↦ (err e, t)
              | ok pending ↦ refresh_rounds fuel dependents pending t
            ]).1
    go (err e) t o next = o
    go (ok pending) t o next = next pending t o

pub IsOrdered-refresh :
    (ids : List String) (g : TaskGraph.TaskGraph)
    → IsOrdered g.states
    → IsOrdered (refresh_pending ids g).1.states
unfolding refresh_pending
IsOrdered-refresh ids g o = IsOrdered-rounds _ g.dependents _ g.states o

pub IsOrdered-unlock :
    (id : String) (r : Result TaskState) (g : TaskGraph.TaskGraph)
    → IsOrdered g.states
    → IsOrdered (unlock id r g).1.states
IsOrdered-unlock id (err e) g o = unfold unlock in o
IsOrdered-unlock id (ok u) g o = elim (Option-cases (get g.dependents id)) [
  | inl n ↦ unfold unlock in rw (n, unlock) o
  | inr (ds, e) ↦ unfold unlock in rw (e, unlock) (IsOrdered-refresh ds g o)
]
