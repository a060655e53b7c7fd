-- ===== src/Agents/TaskGraph/Make/Accepts.antt =====
-- Which tasks the constructor of task_graph.py accepts.
use matterloop.Base.{
  ◌≡◌, refl, ◌↔◌, ℕ, zero, suc, ◌+◌, ◌≤◌, ◌<◌, String, List, [], ◌∷◌, ◌++◌, Bool, true, false, not,
  eqb, elem, all, length, arith, ◌==◌, eq_self, Bool-cases, Option-cases, inl, inr, length-append,
}
use matterloop.Base.Dict.{Dict, get, put, get-put}
use matterloop.Agents.Tasks.{TaskSpec}
use matterloop.Agents.TaskGraph
use matterloop.Agents.TaskGraph.{Result, ok, err, enqueue, from_keys}
use matterloop.Agents.TaskGraph.Cases.{Result-cases}
use matterloop.Agents.TaskGraph.Settled.{has}
use matterloop.Agents.TaskGraph.Make.{
  task_ids, knows_dependencies, empty_index, add_edges, add_all_edges, dependency_counts, zero_ids,
  check_order, index_tasks, validate_and_index, is_empty, fresh_states, make,
}
use matterloop.Agents.TaskGraph.Make.Counts.{
  count, count-append, count_positive, elem_counted, pigeonhole,
}
use matterloop.Agents.TaskGraph.Make.Index.{
  edges, edges_listed, Indexes, Indexes-all_edges, empty_index-has,
}
use matterloop.Agents.TaskGraph.Make.Order.{unmet, open_edges, nobody}
use matterloop.Agents.TaskGraph.Make.Visit.{Visits, Visits-ready}
use matterloop.Agents.TaskGraph.Make.Start.{Visiting-start}
use matterloop.Agents.TaskGraph.Make.Rank.{rank, rank-IsTopological}
use matterloop.Agents.TaskGraph.Make.Validated.{Validated-index, length-map}

-- There is a task, no identifier comes twice, every dependency is a task, and dependencies have a
-- lower rank.
pub record IsAcyclic (tasks : List TaskSpec) : Type 0 where
  pub nonempty : is_empty tasks ≡ false
  pub distinct : (k : String) → count k (task_ids tasks) ≤ 1
  pub known : (k d : String) → 0 < edges tasks k d → elem d (task_ids tasks) ≡ true
  pub place : String → ℕ
  pub lower : (k d : String) → 0 < edges tasks k d → place d < place k

-- The tests of the identifiers pass.
length-enqueue_all :
    (xs ds : List String)
    → ((k : String) → count k xs + count k ds ≤ 1)
    → length (enqueue xs ds) ≡ length xs + length ds
unfolding enqueue count
length-enqueue_all xs [] u = omega arith
length-enqueue_all xs (d ∷ ds) u = elim (Bool-cases (elem d xs)) [
  | inl y ↦ absurd (ground (arith, u d, count_positive d xs y, eq_self d))
  | inr n ↦ rw n (
      omega (
        arith,
        length-append xs (d ∷ []),
        length-enqueue_all (xs ++ d ∷ []) ds (λ k. omega (arith, u k, count-append k xs (d ∷ []))),
      ))
]

distinct_passes :
    (ids : List String)
    → ((k : String) → count k ids ≤ 1)
    → not (eqb (length ids) (length (from_keys ids))) ≡ false
unfolding from_keys count
distinct_passes ids u = ground (arith, length-enqueue_all [] ids (λ k. omega (arith, u k)))

all_counted :
    (f : String → Bool) (ds : List String)
    → ((d : String) → 0 < count d ds → f d ≡ true)
    → all f ds ≡ true
unfolding count
all_counted f [] h = refl
all_counted f (d ∷ ds) h =
    ground
      (arith, h d (ground (arith, eq_self d)), all_counted f ds (λ c m. h c (omega (arith, m))))

known_passes :
    (ids : List String) (tasks : List TaskSpec)
    → ((k d : String) → 0 < edges tasks k d → elem d ids ≡ true)
    → knows_dependencies ids tasks ≡ true
unfolding knows_dependencies edges
known_passes ids [] h = refl
known_passes ids (t ∷ tasks) h = ground (
  arith,
  all_counted (λ d. elem d ids) t.dependencies
      (λ d m. h t.task_id d (ground (arith, eq_self t.task_id, m))),
  known_passes ids tasks (λ k d m. h k d (omega (arith, m))),
)

-- The index is built without a missing key.
add_edges_returns :
    (id : String) (ds : List String) (index : Dict (List String))
    → ((d : String) → 0 < count d ds → has index d ≡ true)
    → (index' : Dict (List String)) × (add_edges id ds index ≡ ok index')
      × ((d : String) → has index d ≡ true → has index' d ≡ true)
unfolding add_edges count
add_edges_returns id [] index h = (index, refl, λ d p. p)
add_edges_returns id (d ∷ ds) index h = elim (Option-cases (get index d)) [
  | inl n ↦ cc (rw (n, has) at (h d (ground (arith, eq_self d))))
  | inr (ks, e) ↦
      let stays : (c : String) → has index c ≡ true → has (put index d (ks ++ id ∷ [])) c ≡ true =
        λ c p. ground (arith, get-put index d c (ks ++ id ∷ []), p) in
      let (index', q, keeps) =
        add_edges_returns id ds (put index d (ks ++ id ∷ []))
          (λ c m. stays c (h c (omega (arith, m)))) in
      (index', rw (e, add_edges) q, λ c p. keeps c (stays c p))
]

add_all_edges_returns :
    (tasks : List TaskSpec) (index : Dict (List String))
    → ((k d : String) → 0 < edges tasks k d → has index d ≡ true)
    → (index' : Dict (List String)) × (add_all_edges tasks index ≡ ok index')
unfolding add_all_edges edges
add_all_edges_returns [] index h = (index, refl)
add_all_edges_returns (t ∷ tasks) index h =
    let (index', q, keeps) =
      add_edges_returns t.task_id t.dependencies index
        (λ d m. h t.task_id d (ground (arith, eq_self t.task_id, m))) in
    let (index'', r) =
      add_all_edges_returns tasks index' (λ k d m. keeps d (h k d (omega (arith, m)))) in
    (index'', rw (q, add_all_edges) r)

-- A task whose dependencies are all visited has none open.
unmet_none :
    (order ds : List String)
    → ((d : String) → 0 < count d ds → elem d order ≡ true)
    → unmet order ds ≡ 0
unfolding unmet count
unmet_none order [] h = refl
unmet_none order (d ∷ ds) h =
    ground
      (arith, h d (ground (arith, eq_self d)), unmet_none order ds (λ c m. h c (omega (arith, m))))

open_edges_none :
    (order : List String) (tasks : List TaskSpec) (k : String)
    → ((d : String) → 0 < edges tasks k d → elem d order ≡ true)
    → open_edges order tasks k ≡ 0
unfolding open_edges edges
open_edges_none order [] k h = refl
open_edges_none order (t ∷ tasks) k h = elim (Bool-cases (t.task_id == k)) [
  | inl y ↦ rw y (
      omega (
        arith,
        unmet_none order t.dependencies (λ d m. h d (rw y (omega (arith, m)))),
        open_edges_none order tasks k (λ d m. h d (omega (arith, m))),
      ))
  | inr n ↦ rw n (omega (arith, open_edges_none order tasks k (λ d m. h d (omega (arith, m)))))
]

module _ (tasks : List TaskSpec) (a : IsAcyclic tasks) where
  -- The visit of an acyclic graph reaches every task.
  visits_below :
      (order : List String)
      → ((k : String)
          → elem k (task_ids tasks) ≡ true
          → open_edges order tasks k ≡ 0
          → elem k order ≡ true)
      → (n : ℕ) (k : String) → a.place k < n
      → elem k (task_ids tasks) ≡ true
      → elem k order ≡ true
  visits_below order closed zero k below m = absurd (omega arith)
  visits_below order closed (suc n) k below m = closed k m (
      open_edges_none order tasks k (λ d e.
        visits_below order closed n d (omega (arith, below, a.lower k d e)) (a.known k d e)))

  as_many : (r : Result ℕ) (v : Visits tasks r) → length v.order ≡ length (task_ids tasks)
  as_many r v =
      let all_in : (k : String) → elem k (task_ids tasks) ≡ true → elem k v.order ≡ true =
        λ k. visits_below v.order v.closed (suc (a.place k)) k (omega arith) in
      omega (
        arith,
        pigeonhole v.order (task_ids tasks) v.bounded,
        pigeonhole (task_ids tasks) v.order (λ k. elim (Bool-cases (elem k (task_ids tasks))) [
          | inl y ↦ omega (arith, a.distinct k, count_positive k v.order (all_in k y))
          | inr n ↦ ground (arith, n, elem_counted k (task_ids tasks))
        ]),
      )

  check_order_passes :
      (index : Dict (List String)) → Indexes tasks index → check_order tasks index ≡ ok index
  unfolding check_order count
  check_order_passes index x =
      let v =
        Visits-ready tasks index x a.distinct (suc (length tasks)) []
          (zero_ids (dependency_counts tasks [])) (dependency_counts tasks [])
          (omega (arith, length-map tasks)) nobody (Visiting-start tasks a.distinct) in
      let same : eqb (length v.order) (length tasks) ≡ true =
        ground (arith, as_many _ v, length-map tasks) in
      rw (v.returns, same, check_order) refl

  index_passes : (index : Dict (List String)) × (validate_and_index tasks ≡ ok index)
  unfolding validate_and_index index_tasks
  index_passes =
      let (index, q) =
        add_all_edges_returns tasks (empty_index (task_ids tasks) [])
          (λ k d e. rw empty_index-has (ground (arith, a.known k d e))) in
      (
        index,
        rw
            (
              a.nonempty,
              distinct_passes (task_ids tasks) a.distinct,
              known_passes (task_ids tasks) tasks a.known,
              q,
              index_tasks,
            )
            (check_order_passes index (Indexes-all_edges tasks index q)),
      )

-- The constructor accepts new tasks exactly when there is one, no identifier comes twice, every
-- dependency is one of the tasks, and the dependencies have no cycle.
pub make_iff_IsAcyclic :
    (tasks : List TaskSpec) → ((g : TaskGraph.TaskGraph) × (make tasks ≡ ok g)) ↔ IsAcyclic tasks
unfolding make
make_iff_IsAcyclic tasks = (
  λ made. elim (Result-cases (validate_and_index tasks)) [
    | inl (x, q) ↦ cc (rw (q, make) at made.1)
    | inr (dependents, q) ↦
        let v = Validated-index tasks dependents q in
        record {
          nonempty = v.nonempty;
          distinct = v.distinct;
          known = v.known;
          place = rank v.order;
          lower = λ k d e.
              rank-IsTopological tasks v.order k d v.topological
                (v.complete k (edges_listed tasks k d e)) e;
        }
  ],
  λ a.
      let (index, q) = index_passes tasks a in
      (record { states = fresh_states tasks []; dependents = index }, rw (q, make) refl),
)
