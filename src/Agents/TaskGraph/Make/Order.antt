-- ===== src/Agents/TaskGraph/Make/Order.antt =====
-- The visit of `_validate_and_index` in task_graph.py (Kahn's algorithm): it ends, and when it visits
-- every task the dependencies have no cycle.
use matterloop.Base.{
  ◌≡◌, refl, ℕ, zero, suc, ◌+◌, ◌≤◌, ◌<◌, ◌⊎◌, String, List, [], ◌∷◌, ◌++◌, some, true, false, elem,
  arith, ◌==◌, eq_iff, inl, inr, if◌then◌else◌,
}
use matterloop.Base.Dict.{Dict, get, put, get-put}
use matterloop.Base.Int.{ℤ, pos}
use matterloop.Agents.Tasks.{TaskSpec}
use matterloop.Agents.TaskGraph.Make.{task_ids, is_zero, decrement}
use matterloop.Agents.TaskGraph.Make.Counts.{count, count-append, count_positive}
use matterloop.Agents.TaskGraph.Make.Index.{edges}

-- How many of the dependencies are not among the visited tasks.
unfoldable pub unmet : List String → List String → ℕ
unmet order [] = 0
unmet order (d ∷ ds) = (if elem d order then 0 else 1) + unmet order ds

unfoldable pub open_edges : List String → List TaskSpec → String → ℕ
unfolding unmet
open_edges order [] k = 0
open_edges order (t ∷ tasks) k =
    (if t.task_id == k then unmet order t.dependencies else 0) + open_edges order tasks k

unmet-visit :
    (c : String) (order ds : List String)
    → elem c order ≡ false
    → unmet (c ∷ order) ds + count c ds ≡ unmet order ds
unfolding unmet count
unmet-visit c order [] h = omega arith
unmet-visit c order (d ∷ ds) h = ground (arith, unmet-visit c order ds h, eq_iff c d, eq_iff d c, h)

pub open_edges-visit :
    (c : String) (order : List String) (tasks : List TaskSpec) (k : String)
    → elem c order ≡ false
    → open_edges (c ∷ order) tasks k + edges tasks k c ≡ open_edges order tasks k
unfolding open_edges edges
open_edges-visit c order [] k h = omega arith
open_edges-visit c order (t ∷ tasks) k h =
    ground (arith, open_edges-visit c order tasks k h, unmet-visit c order t.dependencies h)

unmet_met :
    (order ds : List String) (d : String)
    → unmet order ds ≡ 0
    → 0 < count d ds
    → elem d order ≡ true
unfolding unmet count
unmet_met order [] d h m = absurd (omega arith)
unmet_met order (c ∷ ds) d h m = ground (arith, eq_iff c d, unmet_met order ds d)

pub open_edges_met :
    (order : List String) (tasks : List TaskSpec) (k d : String)
    → open_edges order tasks k ≡ 0
    → 0 < edges tasks k d
    → elem d order ≡ true
unfolding open_edges edges
open_edges_met order [] k d h m = absurd (omega arith)
open_edges_met order (t ∷ tasks) k d h m =
    ground (arith, unmet_met order t.dependencies d, open_edges_met order tasks k d)

-- An order of visits, the last one first: a task comes once, after the tasks that it depends on.
pub data IsTopological (tasks : List TaskSpec) : List String → Type 0 where
  nobody : IsTopological tasks []
  visited :
      (c : String) (order : List String)
      → elem c order ≡ false
      → ((d : String) → 0 < edges tasks c d → elem d order ≡ true)
      → IsTopological tasks order
      → IsTopological tasks (c ∷ order)

-- The state of the visit: what is visited, what the inner loop has still to count down, the deque and
-- the counts.
pub record Visiting (tasks : List TaskSpec) (order ks ready : List String) (counts : Dict ℤ)
    : Type 0 where
  pub counted :
      (k : String)
      → elem k (task_ids tasks) ≡ true
      → get counts k ≡ some (pos (open_edges order tasks k + count k ks))
  pub bounded : (k : String) → count k order + count k ready ≤ count k (task_ids tasks)
  pub free :
      (k : String) → 0 < count k order + count k ready → open_edges order tasks k + count k ks ≡ 0
  pub started :
      (k : String)
      → elem k (task_ids tasks) ≡ true
      → open_edges order tasks k + count k ks ≡ 0
      → 0 < count k order + count k ready

pub zero_cases :
    (n : ℕ) → ((n ≡ 0) × (is_zero (pos n) ≡ true)) ⊎ ((0 < n) × (is_zero (pos n) ≡ false))
zero_cases zero = inl (refl, refl)
zero_cases (suc n) = inr (omega arith, refl)

pub decrement-pos : (n m : ℕ) → n ≡ suc m → decrement (pos n) ≡ pos m
decrement-pos n m e = rw e refl

module _ (tasks : List TaskSpec) (order : List String) where
  -- One round of the inner loop.
  pub Visiting-count :
      (k : String) (ks ready : List String) (counts : Dict ℤ)
      → elem k (task_ids tasks) ≡ true
      → Visiting tasks order (k ∷ ks) ready counts
      → Visiting tasks order ks
          (if is_zero (pos (open_edges order tasks k + count k ks)) then ready ++ k ∷ [] else ready)
          (put counts k (pos (open_edges order tasks k + count k ks)))
  unfolding count
  Visiting-count k ks ready counts there v =
      elim (zero_cases (open_edges order tasks k + count k ks)) [
        | inl (z, y) ↦ rw y (record {
          counted = λ j m. ground (
            arith,
            get-put counts k j (pos (open_edges order tasks k + count k ks)),
            v.counted j m,
            eq_iff k j,
          );
          bounded = λ j. ground (
            arith,
            v.bounded j,
            v.free j,
            count-append j ready (k ∷ []),
            eq_iff k j,
            count_positive k (task_ids tasks) there,
          );
          free = λ j p. ground (arith, v.free j, z, count-append j ready (k ∷ []), eq_iff k j);
          started =
              λ j m q. ground (arith, v.started j m, q, count-append j ready (k ∷ []), eq_iff k j);
        })
        | inr (p, n) ↦ rw n (record {
          counted = λ j m. ground (
            arith,
            get-put counts k j (pos (open_edges order tasks k + count k ks)),
            v.counted j m,
            eq_iff k j,
          );
          bounded = λ j. v.bounded j;
          free = λ j p. ground (arith, v.free j);
          started = λ j m q. ground (arith, v.started j m, q, p, eq_iff k j);
        })
      ]
