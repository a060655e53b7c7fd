-- ===== src/Agents/TaskGraph/Make/Start.antt =====
-- What `_validate_and_index` of task_graph.py starts its visit with: the counts of the dependencies
-- and the tasks that have none.
use matterloop.Base.{
  ◌≡◌, refl, sym, ◌+◌, ◌≤◌, ◌<◌, String, List, [], ◌∷◌, some, true, false, elem, length, arith,
  ◌==◌, eq_iff, Bool-cases, inl, inr, if◌then◌else◌,
}
use matterloop.Base.Dict.{Dict, get, put, keys, get-put}
use matterloop.Base.Int.{ℤ, pos}
use matterloop.Agents.Tasks.{TaskSpec}
use matterloop.Agents.TaskGraph.Make.{dependency_counts, zero_ids, task_ids, is_zero}
use matterloop.Agents.TaskGraph.Make.Counts.{count, count_positive, elem_counted}
use matterloop.Agents.TaskGraph.Make.Order.{unmet, open_edges, Visiting, zero_cases}

unmet_all : (ds : List String) → unmet [] ds ≡ length ds
unfolding unmet
unmet_all [] = refl
unmet_all (d ∷ ds) = omega (arith, unmet_all ds)

open_edges_absent :
    (order : List String) (tasks : List TaskSpec) (k : String)
    → elem k (task_ids tasks) ≡ false
    → open_edges order tasks k ≡ 0
unfolding open_edges
open_edges_absent order [] k h = refl
open_edges_absent order (t ∷ tasks) k h =
    ground (arith, open_edges_absent order tasks k, eq_iff k t.task_id, eq_iff t.task_id k, h)

get-dependency_counts :
    (tasks : List TaskSpec) (counts : Dict ℤ) (k : String)
    → count k (task_ids tasks) ≤ 1
    → get (dependency_counts tasks counts) k
      ≡ (if elem k (task_ids tasks) then some (pos (open_edges [] tasks k)) else get counts k)
unfolding dependency_counts open_edges count
get-dependency_counts [] counts k u = refl
get-dependency_counts (t ∷ tasks) counts k u =
    let rest = get-dependency_counts tasks (put counts t.task_id (pos (length t.dependencies))) k in
    elim (Bool-cases (t.task_id == k)) [
      | inl y ↦
          let absent : elem k (task_ids tasks) ≡ false =
            elim (Bool-cases (elem k (task_ids tasks))) [
              | inl m ↦ absurd (omega (arith, rw y at u, count_positive k (task_ids tasks) m))
              | inr n ↦ n
            ] in
          let back : (k == t.task_id) ≡ true =
            (eq_iff k t.task_id).1 (sym ((eq_iff t.task_id k).0 y)) in
          let here : get
                (dependency_counts tasks (put counts t.task_id (pos (length t.dependencies)))) k
              ≡ some (pos (length t.dependencies)) =
            ground (
              arith,
              rest (ground (arith, u)),
              absent,
              y,
              get-put counts t.task_id k (pos (length t.dependencies)),
            ) in
          let sum : open_edges [] (t ∷ tasks) k ≡ length t.dependencies =
            rw y (omega (arith, open_edges_absent [] tasks k absent, unmet_all t.dependencies)) in
          rw (here, back, sum) refl
      | inr n ↦ ground (
        arith,
        rest (ground (arith, u)),
        n,
        eq_iff k t.task_id,
        eq_iff t.task_id k,
        get-put counts t.task_id k (pos (length t.dependencies)),
      )
    ]

-- The keys of the counts are the tasks, each once.
count-keys-put :
    (d : Dict ℤ) (j : String) (v : ℤ) (k : String)
    → count k (keys (put d j v)) ≤ count k (keys d) + (if j == k then 1 else 0)
unfolding put count
count-keys-put [] j v k = ground arith
count-keys-put ((i, w) ∷ d) j v k = ground (arith, count-keys-put d j v k)

count-keys-counts :
    (tasks : List TaskSpec) (d : Dict ℤ) (k : String)
    → count k (keys (dependency_counts tasks d)) ≤ count k (keys d) + count k (task_ids tasks)
unfolding dependency_counts count
count-keys-counts [] d k = omega arith
count-keys-counts (t ∷ tasks) d k = omega (
  arith,
  count-keys-counts tasks (put d t.task_id (pos (length t.dependencies))) k,
  count-keys-put d t.task_id (pos (length t.dependencies)) k,
)

count-zero_ids : (d : Dict ℤ) (k : String) → count k (zero_ids d) ≤ count k (keys d)
unfolding zero_ids count
count-zero_ids [] k = omega arith
count-zero_ids ((i, c) ∷ d) k = ground (arith, count-zero_ids d k)

zero_ids-found :
    (d : Dict ℤ) (k : String) (c : ℤ)
    → count k (keys d) ≤ 1
    → 0 < count k (zero_ids d)
    → get d k ≡ some c
    → is_zero c ≡ true
unfolding zero_ids count get
zero_ids-found [] k c u m e = absurd (omega arith)
zero_ids-found ((i, b) ∷ d) k c u m e = elim (Bool-cases (i == k)) [
  | inl y ↦ ground (arith, y, u, m, e, count-zero_ids d k)
  | inr n ↦
      zero_ids-found d k c (ground (arith, n, u)) (ground (arith, n, m)) (ground (arith, n, e))
]

zero_ids-listed :
    (d : Dict ℤ) (k : String) (c : ℤ)
    → get d k ≡ some c
    → is_zero c ≡ true
    → 0 < count k (zero_ids d)
unfolding zero_ids count get
zero_ids-listed [] k c e z = cc
zero_ids-listed ((i, b) ∷ d) k c e z = elim (Bool-cases (i == k)) [
  | inl y ↦ ground (arith, y, e, z)
  | inr n ↦ ground (arith, n, zero_ids-listed d k c (rw n at e) z)
]

pub Visiting-start :
    (tasks : List TaskSpec)
    → ((k : String) → count k (task_ids tasks) ≤ 1)
    → Visiting tasks [] [] (zero_ids (dependency_counts tasks [])) (dependency_counts tasks [])
unfolding count
Visiting-start tasks unique =
    let keyed : (k : String)
        → count k (keys (dependency_counts tasks [])) ≤ count k (task_ids tasks) =
      λ k. omega (arith, count-keys-counts tasks [] k) in
    record {
      counted = λ k m. ground (arith, get-dependency_counts tasks [] k (unique k), m);
      bounded = λ k. omega (arith, keyed k, count-zero_ids (dependency_counts tasks []) k);
      free = λ k p.
          let listed : elem k (task_ids tasks) ≡ true =
            elem_counted k (task_ids tasks)
              (omega (arith, p, keyed k, count-zero_ids (dependency_counts tasks []) k)) in
          let at : get (dependency_counts tasks []) k ≡ some (pos (open_edges [] tasks k)) =
            ground (arith, get-dependency_counts tasks [] k (unique k), listed) in
          let none_left : is_zero (pos (open_edges [] tasks k)) ≡ true =
            zero_ids-found (dependency_counts tasks []) k _ (omega (arith, keyed k, unique k))
              (omega (arith, p)) at in
          elim (zero_cases (open_edges [] tasks k)) [
            | inl (z, y) ↦ omega (arith, z)
            | inr (z, n) ↦ cc
          ];
      started = λ k m q.
          let at : get (dependency_counts tasks []) k ≡ some (pos 0) =
            ground (arith, get-dependency_counts tasks [] k (unique k), m, q) in
          omega (arith, zero_ids-listed (dependency_counts tasks []) k (pos 0) at refl);
    }
