-- ===== src/Agents/TaskGraph/Make/Rank.antt =====
-- The order of the visits of `_validate_and_index` in task_graph.py: every dependency has a lower rank.
use matterloop.Base.{
  ◌≡◌, ℕ, suc, ◌≤◌, ◌<◌, String, List, [], ◌∷◌, true, elem, length, arith, ◌==◌, eq_iff, Bool-cases,
  inl, inr, if◌then◌else◌,
}
use matterloop.Agents.Tasks.{TaskSpec}
use matterloop.Agents.TaskGraph.Make.{task_ids}
use matterloop.Agents.TaskGraph.Make.Counts.{count, count_positive, elem_counted, pigeonhole}
use matterloop.Agents.TaskGraph.Make.Index.{edges}
use matterloop.Agents.TaskGraph.Make.Order.{IsTopological, nobody, visited}

-- The place of a task in the order, counted from the first visit.
pub rank : List String → String → ℕ
rank [] k = 0
rank (c ∷ order) k = let rest = rank order k in if c == k then suc (length order) else rest

rank_le : (order : List String) (k : String) → rank order k ≤ length order
unfolding rank
rank_le [] k = omega arith
rank_le (c ∷ order) k = ground (arith, rank_le order k)

-- A visited task has its dependencies visited.
elem-IsTopological :
    (tasks : List TaskSpec) (order : List String) (k d : String)
    → IsTopological tasks order
    → elem k order ≡ true
    → 0 < edges tasks k d
    → elem d order ≡ true
elem-IsTopological tasks [] k d nobody m e = cc
elem-IsTopological tasks (c ∷ order) k d (visited _ _ fresh met t) m e =
    elim (Bool-cases (k == c)) [
      | inl y ↦ ground (arith, met d (rw (← (eq_iff k c).0 y) e))
      | inr n ↦ ground (arith, elem-IsTopological tasks order k d t (ground (arith, m, n)) e)
    ]

pub rank-IsTopological :
    (tasks : List TaskSpec) (order : List String) (k d : String)
    → IsTopological tasks order
    → elem k order ≡ true
    → 0 < edges tasks k d
    → rank order d < rank order k
unfolding rank
rank-IsTopological tasks [] k d nobody m e = cc
rank-IsTopological tasks (c ∷ order) k d (visited _ _ fresh met t) m e =
    elim (Bool-cases (c == k)) [
      | inl y ↦
          let there : elem d order ≡ true = met d (rw ((eq_iff c k).0 y) e) in
          elim (Bool-cases (c == d)) [
            | inl z ↦ cc (rw ((eq_iff c d).0 z) at fresh, there)
            | inr n ↦ rw (y, n) (omega (arith, rank_le order d))
          ]
      | inr n ↦
          let before : elem k order ≡ true = ground (arith, m, n, eq_iff c k, eq_iff k c) in
          let there : elem d order ≡ true = elem-IsTopological tasks order k d t before e in
          elim (Bool-cases (c == d)) [
            | inl z ↦ cc (rw ((eq_iff c d).0 z) at fresh, there)
            | inr z ↦ rw (n, z) (rank-IsTopological tasks order k d t before e)
          ]
    ]

-- As many visits as there are tasks are visits of all tasks.
pub all_visited :
    (tasks : List TaskSpec) (order : List String) (k : String)
    → ((j : String) → count j order ≤ count j (task_ids tasks))
    → length order ≡ length (task_ids tasks)
    → elem k (task_ids tasks) ≡ true
    → elem k order ≡ true
unfolding count
all_visited tasks order k bounded e m = elim (Bool-cases (elem k order)) [
  | inl y ↦ y
  | inr n ↦ absurd (
      omega (
        arith,
        e,
        pigeonhole (k ∷ order) (task_ids tasks) (λ j. ground (
          arith,
          bounded j,
          eq_iff k j,
          n,
          elem_counted j order,
          count_positive k (task_ids tasks) m,
        )),
      ))
]
