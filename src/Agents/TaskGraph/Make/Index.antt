-- ===== src/Agents/TaskGraph/Make/Index.antt =====
-- The index that `_validate_and_index` of task_graph.py builds: what `_dependents` has of each task.
use matterloop.Base.{
  ◌≡◌, refl, ℕ, ◌+◌, ◌<◌, String, List, [], ◌∷◌, ◌++◌, some, true, elem, arith, ◌==◌, ◌||◌, eq_iff,
  Option-cases, inl, inr, if◌then◌else◌,
}
use matterloop.Base.Dict.{Dict, get, put, get-put}
use matterloop.Agents.Tasks.{TaskSpec}
use matterloop.Agents.TaskGraph.{ok, dependents_of}
use matterloop.Agents.TaskGraph.Cases.{Result-cases}
use matterloop.Agents.TaskGraph.Settled.{has}
use matterloop.Agents.TaskGraph.Make.{empty_index, add_edges, add_all_edges, task_ids}
use matterloop.Agents.TaskGraph.Make.Counts.{count, count-append}

-- How often the task `k` names `d` among its dependencies.
unfoldable pub edges : List TaskSpec → String → String → ℕ
unfolding count
edges [] k d = 0
edges (t ∷ tasks) k d = (if t.task_id == k then count d t.dependencies else 0) + edges tasks k d

pub edges_listed :
    (tasks : List TaskSpec) (k d : String) → 0 < edges tasks k d → elem k (task_ids tasks) ≡ true
unfolding edges
edges_listed [] k d h = absurd (omega arith)
edges_listed (t ∷ tasks) k d h =
    ground (arith, eq_iff k t.task_id, eq_iff t.task_id k, edges_listed tasks k d)

-- What is in the index after a part of the loop, compared with before it.
record Adds (index index' : Dict (List String)) (n : String → String → ℕ) : Type 0 where
  counts :
      (k d : String) → count k (dependents_of index' d) ≡ count k (dependents_of index d) + n k d
  keeps : (d : String) → has index d ≡ true → has index' d ≡ true

-- One entry more.
Adds-put :
    (index : Dict (List String)) (id d : String) (ks : List String)
    → get index d ≡ some ks
    → Adds index
        (put index d (ks ++ id ∷ []))
        (λ k c. if id == k then (if d == c then 1 else 0) else 0)
unfolding count dependents_of
Adds-put index id d ks e = record {
  counts = λ k c.
      ground (arith, get-put index d c (ks ++ id ∷ []), e, eq_iff d c, count-append k ks (id ∷ []));
  keeps = λ c h. ground (arith, get-put index d c (ks ++ id ∷ []), h);
}

Adds-edges :
    (id : String) (ds : List String) (index index' : Dict (List String))
    → add_edges id ds index ≡ ok index'
    → Adds index index' (λ k d. if id == k then count d ds else 0)
unfolding add_edges count
Adds-edges id [] index index' e =
    let same : index ≡ index' = cc in
    record { counts = λ k d. rw same (ground arith); keeps = λ d h. rw (← same) h }
Adds-edges id (c ∷ ds) index index' e = elim (Option-cases (get index c)) [
  | inl n ↦ cc (rw (n, add_edges) at e)
  | inr (ks, q) ↦
      let first = Adds-put index id c ks q in
      let rest = Adds-edges id ds (put index c (ks ++ id ∷ [])) index' (rw (q, add_edges) at e) in
      record {
        counts = λ k d. ground (arith, first.counts k d, rest.counts k d);
        keeps = λ d h. rest.keeps d (first.keeps d h);
      }
]

Adds-all_edges :
    (tasks : List TaskSpec) (index index' : Dict (List String))
    → add_all_edges tasks index ≡ ok index'
    → Adds index index' (edges tasks)
unfolding add_all_edges edges
Adds-all_edges [] index index' e =
    let same : index ≡ index' = cc in
    record { counts = λ k d. rw same (omega arith); keeps = λ d h. rw (← same) h }
Adds-all_edges (t ∷ tasks) index index' e =
    elim (Result-cases (add_edges t.task_id t.dependencies index)) [
      | inl (x, n) ↦ cc (rw (n, add_all_edges) at e)
      | inr (index'', q) ↦
          let first = Adds-edges t.task_id t.dependencies index index'' q in
          let rest = Adds-all_edges tasks index'' index' (rw (q, add_all_edges) at e) in
          record {
            counts = λ k d. omega (arith, first.counts k d, rest.counts k d);
            keeps = λ d h. rest.keeps d (first.keeps d h);
          }
    ]

pub empty_index-has :
    (ids : List String) (index : Dict (List String)) (d : String)
    → has (empty_index ids index) d ≡ (elem d ids || has index d)
unfolding empty_index
empty_index-has [] index d = refl
empty_index-has (id ∷ ids) index d = ground (
  arith,
  empty_index-has ids (put index id []) d,
  get-put index id d [],
  eq_iff id d,
  eq_iff d id,
)

empty_index-empty :
    (ids : List String) (index : Dict (List String)) (d : String)
    → dependents_of index d ≡ []
    → dependents_of (empty_index ids index) d ≡ []
unfolding empty_index dependents_of
empty_index-empty [] index d h = h
empty_index-empty (id ∷ ids) index d h =
    empty_index-empty ids (put index id []) d (ground (arith, get-put index id d [], h))

-- The index of some tasks: a task stands among the dependents of another as often as it names it
-- among its dependencies.
pub record Indexes (tasks : List TaskSpec) (dependents : Dict (List String)) : Type 0 where
  pub counts : (k d : String) → count k (dependents_of dependents d) ≡ edges tasks k d
  pub listed : (d : String) → elem d (task_ids tasks) ≡ true → has dependents d ≡ true

pub Indexes-all_edges :
    (tasks : List TaskSpec) (dependents : Dict (List String))
    → add_all_edges tasks (empty_index (task_ids tasks) []) ≡ ok dependents
    → Indexes tasks dependents
unfolding count dependents_of get
Indexes-all_edges tasks dependents e =
    let adds = Adds-all_edges tasks (empty_index (task_ids tasks) []) dependents e in
    record {
      counts = λ k d. ground (arith, adds.counts k d, empty_index-empty (task_ids tasks) [] d refl);
      listed = λ d h. adds.keeps d (ground (arith, empty_index-has (task_ids tasks) [] d, h));
    }
