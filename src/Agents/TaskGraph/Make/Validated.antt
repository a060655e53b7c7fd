-- ===== src/Agents/TaskGraph/Make/Validated.antt =====
-- Tasks that `_validate_and_index` of task_graph.py accepts: the index is complete and the dependencies
-- have no cycle.
use matterloop.Base.{
  ◌≡◌, refl, suc, ◌≤◌, ◌<◌, String, List, [], ◌∷◌, Bool, true, false, not, eqb, elem, all, length,
  arith, ◌==◌, eq_iff, Bool-cases, inl, inr, if◌then◌else◌,
}
use matterloop.Base.Dict.{Dict}
use matterloop.Agents.Tasks.{TaskSpec}
use matterloop.Agents.TaskGraph
use matterloop.Agents.TaskGraph.{
  Result, ok, err, GraphError, from_keys, dependents_of, is_pending, is_succeeded,
  is_failed_dependency,
}
use matterloop.Agents.TaskGraph.Cases.{Result-cases}
use matterloop.Agents.TaskGraph.Make.{
  task_ids, knows_dependencies, empty_index, add_all_edges, dependency_counts, zero_ids,
  check_order, index_tasks, validate_and_index, is_empty,
}
use matterloop.Agents.TaskGraph.Make.Counts.{count, count_unique}
use matterloop.Agents.TaskGraph.Make.Index.{edges, Indexes, Indexes-all_edges}
use matterloop.Agents.TaskGraph.Make.Order.{IsTopological, nobody}
use matterloop.Agents.TaskGraph.Make.Visit.{Visits-ready}
use matterloop.Agents.TaskGraph.Make.Start.{Visiting-start}
use matterloop.Agents.TaskGraph.Make.Rank.{all_visited}

-- What holds of tasks that `_validate_and_index` accepts.
pub record Validated (tasks : List TaskSpec) (dependents : Dict (List String)) : Type 0 where
  pub nonempty : is_empty tasks ≡ false
  pub distinct : (k : String) → count k (task_ids tasks) ≤ 1
  pub indexes : Indexes tasks dependents
  pub known : (k d : String) → 0 < edges tasks k d → elem d (task_ids tasks) ≡ true
  pub order : List String
  pub topological : IsTopological tasks order
  pub complete : (k : String) → elem k (task_ids tasks) ≡ true → elem k order ≡ true

knows_all :
    (f : String → Bool) (ds : List String) (d : String)
    → all f ds ≡ true
    → 0 < count d ds
    → f d ≡ true
unfolding count
knows_all f [] d h m = absurd (omega arith)
knows_all f (c ∷ ds) d h m = elim (Bool-cases (c == d)) [
  | inl y ↦ rw (← (eq_iff c d).0 y) (ground arith)
  | inr n ↦ knows_all f ds d (ground arith) (ground (arith, m, n))
]

knows-edges :
    (ids : List String) (tasks : List TaskSpec) (k d : String)
    → knows_dependencies ids tasks ≡ true
    → 0 < edges tasks k d
    → elem d ids ≡ true
unfolding knows_dependencies edges
knows-edges ids [] k d h m = absurd (omega arith)
knows-edges ids (t ∷ tasks) k d h m = ground (
  arith,
  h,
  m,
  λ (q : all (λ d. elem d ids) t.dependencies ≡ true) (p : 0 < count d t.dependencies).
      knows_all (λ d. elem d ids) t.dependencies d q p,
  λ (q : knows_dependencies ids tasks ≡ true) (p : 0 < edges tasks k d).
      knows-edges ids tasks k d q p,
)

guard_passed :
    {A : Type 0} (c : Bool) (x : GraphError) (r : Result A) (a : A)
    → (if c then err x else r) ≡ ok a
    → (c ≡ false) × (r ≡ ok a)
guard_passed true x r a e = cc
guard_passed false x r a e = (refl, e)

unique_ids :
    (ids : List String)
    → not (eqb (length ids) (length (from_keys ids))) ≡ false
    → (k : String) → count k ids ≤ 1
unfolding from_keys
unique_ids ids h k = count_unique [] ids (ground (arith, h)) k

pub length-map : (tasks : List TaskSpec) → length (task_ids tasks) ≡ length tasks
length-map [] = refl
length-map (t ∷ tasks) = omega (arith, length-map tasks)

Validated-order :
    (tasks : List TaskSpec) (index dependents : Dict (List String))
    → is_empty tasks ≡ false
    → Indexes tasks index
    → ((k d : String) → 0 < edges tasks k d → elem d (task_ids tasks) ≡ true)
    → ((k : String) → count k (task_ids tasks) ≤ 1)
    → check_order tasks index ≡ ok dependents
    → Validated tasks dependents
unfolding check_order count
Validated-order tasks index dependents nonempty x known unique e =
    let v =
      Visits-ready tasks index x unique (suc (length tasks)) []
        (zero_ids (dependency_counts tasks [])) (dependency_counts tasks [])
        (omega (arith, length-map tasks)) nobody (Visiting-start tasks unique) in
    elim (Bool-cases (eqb (length v.order) (length tasks))) [
      | inr n ↦ cc (rw (v.returns, n, check_order) at e)
      | inl y ↦
          let same : index ≡ dependents = cc (rw (v.returns, y, check_order) at e) in
          record {
            nonempty = nonempty;
            distinct = unique;
            indexes = rw (← same) x;
            known = known;
            order = v.order;
            topological = v.topological;
            complete = λ k m.
                all_visited tasks v.order k v.bounded (ground (arith, y, length-map tasks)) m;
          }
    ]

pub Validated-index :
    (tasks : List TaskSpec) (dependents : Dict (List String))
    → validate_and_index tasks ≡ ok dependents
    → Validated tasks dependents
unfolding validate_and_index index_tasks
Validated-index tasks dependents e =
    let (nonempty, e1) = guard_passed _ _ _ _ e in
    let (distinct, e2) = guard_passed _ _ _ _ e1 in
    let (knows, e3) =
      guard_passed (not (knows_dependencies (task_ids tasks) tasks)) TaskGraph.invalid_graph
        (index_tasks tasks) dependents e2 in
    elim (Result-cases (add_all_edges tasks (empty_index (task_ids tasks) []))) [
      | inl (x, q) ↦ cc (rw (q, index_tasks) at e3)
      | inr (index, q) ↦
          Validated-order tasks index dependents nonempty (Indexes-all_edges tasks index q)
            (λ k d p. knows-edges (task_ids tasks) tasks k d (ground (arith, knows)) p)
            (unique_ids (task_ids tasks) distinct) (rw (q, index_tasks) at e3)
    ]
