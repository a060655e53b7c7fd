-- ===== src/Agents/TaskGraph/Settled.antt =====
-- `_refresh_pending` of task_graph.py misses no task: after it, a task that is still pending waits for
-- a dependency.
pub mod Refresh
pub mod Steps
pub mod Whole
pub mod Runs
use matterloop.Base.{
  ◌≡◌, refl, ℕ, zero, suc, ◌+◌, ◌≤◌, ◌<◌, ◌≢◌, ◌⊎◌, inl, inr, String, List, [], ◌∷◌, ◌++◌, Option,
  none, some, Bool, true, false, elem, any, all, length, arith, ◌==◌, ◌||◌, eq_iff, eq_self,
  Bool-cases, Option-cases, if◌then◌else◌, length-append,
}
use matterloop.Base.Dict.{Dict, get, put, get-put}
use matterloop.Agents.Tasks.{TaskStatus, TaskState}
use matterloop.Agents.TaskGraph
use matterloop.Agents.TaskGraph.{
  Result, ok, err, is_succeeded, is_pending, is_failed_dependency, dependency_statuses, refreshed,
  visit, refresh_rounds, refresh_pending, enqueue, from_keys, dependents_of, potential,
}
use matterloop.Agents.TaskGraph.Cases.{visit-Visited, missing, left, moved}
use matterloop.Agents.TaskGraph.Order.{done_in}

-- The task is there and has failed, or is blocked or cancelled.
unfoldable pub failed_in : Dict TaskState → String → Bool
unfolding is_failed_dependency
failed_in states d = elim (get states d) [ none ↦ false | some s ↦ is_failed_dependency s.status ]

abbrev pub has : {V : Type 0} → Dict V → String → Bool
has d k = elim (get d k) [ none ↦ false | some v ↦ true ]

-- No dependency has failed, and not all have succeeded.
pub record Waits (states : Dict TaskState) (s : TaskState) : Type 0 where
  pub none_failed : any (failed_in states) s.spec.dependencies ≡ false
  pub some_open : all (done_in states) s.spec.dependencies ≡ false

-- Every pending task waits for a dependency.
pub record IsSettled (states : Dict TaskState) : Type 0 where
  pub at :
      (id : String) (s : TaskState)
      → get states id ≡ some s
      → is_pending s.status ≡ true
      → Waits states s

-- What the constructor makes: every dependency is a task, and `_dependents` has a task among the
-- dependents of each of its dependencies.
pub record IsIndexed (dependents : Dict (List String)) (states : Dict TaskState) : Type 0 where
  pub indexed :
      (id : String) (s : TaskState)
      → get states id ≡ some s
      → (d : String) → elem d s.spec.dependencies ≡ true
      → elem id (dependents_of dependents d) ≡ true
  pub known :
      (id : String) (s : TaskState)
      → get states id ≡ some s
      → (d : String) → elem d s.spec.dependencies ≡ true
      → has states d ≡ true
  pub listed : (id : String) → has states id ≡ true → has dependents id ≡ true
  pub tasks : (d k : String) → elem k (dependents_of dependents d) ≡ true → has states k ≡ true

-- The statuses of known dependencies, and what they say.
pub statuses_known :
    (states : Dict TaskState) (ds : List String)
    → ((d : String) → elem d ds ≡ true → has states d ≡ true)
    → (ts : List TaskStatus) × (dependency_statuses states ds ≡ some ts)
unfolding dependency_statuses
statuses_known states [] k = ([], refl)
statuses_known states (d ∷ ds) k = elim (Option-cases (get states d)) [
  | inl n ↦ cc (rw (n, has) at (k d (ground (arith, eq_self d))))
  | inr (s, e) ↦
      let (ts, q) = statuses_known states ds (λ c m. k c (ground (arith, m))) in
      (s.status ∷ ts, ground (arith, e, q))
]

pub statuses_any :
    (states : Dict TaskState) (ds : List String) (ts : List TaskStatus)
    → dependency_statuses states ds ≡ some ts
    → (any is_failed_dependency ts ≡ any (failed_in states) ds)
      × (all is_succeeded ts ≡ all (done_in states) ds)
unfolding dependency_statuses failed_in done_in
statuses_any states [] ts e = ground (arith, e)
statuses_any states (d ∷ ds) ts e = elim (Option-cases (get states d)) [
  | inl n ↦ ground (arith, n, e)
  | inr (s, f) ↦ elim (Option-cases (dependency_statuses states ds)) [
    | inl n ↦ ground (arith, f, n, e)
    | inr (rest, q) ↦ ground (arith, f, q, e, statuses_any states ds rest q)
  ]
]

-- The deque.
pub elem-append : (k : String) (xs ys : List String) → elem k (xs ++ ys) ≡ (elem k xs || elem k ys)
elem-append k [] ys = refl
elem-append k (x ∷ xs) ys = ground (arith, elem-append k xs ys)

pub elem-enqueue :
    (k : String) (xs ds : List String) → elem k (enqueue xs ds) ≡ (elem k xs || elem k ds)
unfolding enqueue
elem-enqueue k xs [] = ground arith
elem-enqueue k xs (d ∷ ds) = elim (Bool-cases (elem d xs)) [
  | inl y ↦ rw (y, elem-enqueue k xs ds) (ground (arith, y, eq_iff k d))
  | inr n ↦ rw (n, elem-enqueue k (xs ++ d ∷ []) ds, elem-append k xs (d ∷ [])) (ground arith)
]

pub length-enqueue : (xs ds : List String) → length (enqueue xs ds) ≤ length xs + length ds
unfolding enqueue
length-enqueue xs [] = omega arith
length-enqueue xs (d ∷ ds) = elim (Bool-cases (elem d xs)) [
  | inl y ↦ rw y (omega (arith, length-enqueue xs ds))
  | inr n ↦ rw n (omega (arith, length-enqueue (xs ++ d ∷ []) ds, length-append xs (d ∷ [])))
]

pub any_congr :
    (f g : String → Bool) (ds : List String)
    → ((d : String) → elem d ds ≡ true → f d ≡ g d)
    → any f ds ≡ any g ds
any_congr f g [] h = refl
any_congr f g (d ∷ ds) h =
    ground
      (arith, h d (ground (arith, eq_self d)), any_congr f g ds (λ c m. h c (ground (arith, m))))

pub all_congr :
    (f g : String → Bool) (ds : List String)
    → ((d : String) → elem d ds ≡ true → f d ≡ g d)
    → all f ds ≡ all g ds
all_congr f g [] h = refl
all_congr f g (d ∷ ds) h =
    ground
      (arith, h d (ground (arith, eq_self d)), all_congr f g ds (λ c m. h c (ground (arith, m))))

-- `Waits` depends on what the dependencies are worth.
pub Waits-congr :
    (states states' : Dict TaskState) (s : TaskState)
    → ((d : String)
        → elem d s.spec.dependencies ≡ true
        → (failed_in states' d ≡ failed_in states d) × (done_in states' d ≡ done_in states d))
    → Waits states s
    → Waits states' s
Waits-congr states states' s h w = record {
  none_failed = rw (any_congr _ _ _ (λ d m. (h d m).0)) (w.none_failed);
  some_open = rw (all_congr _ _ _ (λ d m. (h d m).1)) (w.some_open);
}
