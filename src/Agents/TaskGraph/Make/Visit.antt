-- ===== src/Agents/TaskGraph/Make/Visit.antt =====
-- The loops of `_validate_and_index` in task_graph.py: they end, and visit in a topological order.
use matterloop.Base.{
  ◌≡◌, refl, ℕ, zero, suc, ◌+◌, ◌≤◌, ◌<◌, String, List, [], ◌∷◌, ◌++◌, some, true, false, elem,
  length, arith, eq_self, Bool-cases, Option-cases, inl, inr, if◌then◌else◌,
}
use matterloop.Base.Dict.{Dict, get, put}
use matterloop.Base.Int.{ℤ, pos}
use matterloop.Agents.Tasks.{TaskSpec}
use matterloop.Agents.TaskGraph.{Result, ok}
use matterloop.Agents.TaskGraph.Cases.{dependents_of-found}
use matterloop.Agents.TaskGraph.Settled.{has}
use matterloop.Agents.TaskGraph.Make.{release, visit_ready, task_ids, is_zero}
use matterloop.Agents.TaskGraph.Make.Counts.{count, count_positive, elem_counted, pigeonhole}
use matterloop.Agents.TaskGraph.Make.Index.{edges_listed, Indexes}
use matterloop.Agents.TaskGraph.Make.Order.{
  open_edges, open_edges-visit, open_edges_met, IsTopological, visited, Visiting, Visiting-count,
}

-- What the inner loop returns.
record Released (tasks : List TaskSpec) (order : List String) (r : Result (List String × Dict ℤ))
    : Type 0 where
  ready : List String
  counts : Dict ℤ
  returns : r ≡ ok (ready, counts)
  visiting : Visiting tasks order [] ready counts

release_step :
    (k : String) (ks ready : List String) (counts : Dict ℤ) (n : ℕ)
    → get counts k ≡ some (pos (suc n))
    → release (k ∷ ks) counts ready
      ≡ release ks (put counts k (pos n)) (if is_zero (pos n) then ready ++ k ∷ [] else ready)
unfolding release
release_step k ks ready counts n e = rw (e, release) refl

Released-release :
    (tasks : List TaskSpec) (order ks ready : List String) (counts : Dict ℤ)
    → ((k : String) → elem k ks ≡ true → elem k (task_ids tasks) ≡ true)
    → Visiting tasks order ks ready counts
    → Released tasks order (release ks counts ready)
unfolding release
Released-release tasks order [] ready counts there v = record {
  ready = ready;
  counts = counts;
  returns = refl;
  visiting = v;
}
Released-release tasks order (k ∷ ks) ready counts there v =
    let listed : elem k (task_ids tasks) ≡ true = there k (ground (arith, eq_self k)) in
    let here : get counts k ≡ some (pos (suc (open_edges order tasks k + count k ks))) =
      unfold count in ground (arith, v.counted k listed, eq_self k) in
    rw (release_step k ks ready counts _ here) (
      Released-release tasks order ks _ _ (λ j m. there j (ground (arith, m)))
        (Visiting-count tasks order k ks ready counts listed v))

-- What the outer loop returns: the number of the visited tasks.
pub record Visits (tasks : List TaskSpec) (r : Result ℕ) : Type 0 where
  pub order : List String
  pub returns : r ≡ ok (length order)
  pub topological : IsTopological tasks order
  pub bounded : (k : String) → count k order ≤ count k (task_ids tasks)
  pub closed :
      (k : String)
      → elem k (task_ids tasks) ≡ true
      → open_edges order tasks k ≡ 0
      → elem k order ≡ true

module _ (tasks : List TaskSpec) (dependents : Dict (List String)) (x : Indexes tasks dependents)
    (unique : (k : String) → count k (task_ids tasks) ≤ 1) where
  -- The first task of the deque is visited.
  Visiting-visit :
      (c : String) (order rest ks : List String) (counts : Dict ℤ)
      → get dependents c ≡ some ks
      → elem c order ≡ false
      → Visiting tasks order [] (c ∷ rest) counts
      → Visiting tasks (c ∷ order) ks rest counts
  unfolding count
  Visiting-visit c order rest ks counts e fresh v =
      let named : (k : String)
          → open_edges (c ∷ order) tasks k + count k ks ≡ open_edges order tasks k =
        λ k. omega (
          arith,
          rw (dependents_of-found dependents c ks e) at (x.counts k c),
          open_edges-visit c order tasks k fresh,
        ) in
      record {
        counted = λ k m. rw named (ground (arith, v.counted k m));
        bounded = λ k. omega (arith, v.bounded k);
        free = λ k p. rw named (omega (arith, v.free k (omega (arith, p))));
        started = λ k m q. omega (arith, v.started k m (omega (arith, q, named k)));
      }

  pub Visits-ready :
      (fuel : ℕ) (order ready : List String) (counts : Dict ℤ)
      → length (task_ids tasks) < fuel + length order
      → IsTopological tasks order
      → Visiting tasks order [] ready counts
      → Visits tasks (visit_ready fuel dependents counts ready (length order))
  unfolding visit_ready count
  Visits-ready zero order ready counts enough t v =
      absurd
        (omega (arith, enough, pigeonhole order (task_ids tasks) (λ k. omega (arith, v.bounded k))))
  Visits-ready (suc fuel) order [] counts enough t v = record {
    order = order;
    returns = refl;
    topological = t;
    bounded = λ k. omega (arith, v.bounded k);
    closed = λ k m q. elem_counted k order (omega (arith, v.started k m (omega (arith, q))));
  }
  Visits-ready (suc fuel) order (c ∷ ready) counts enough t v =
      let once : count c order + suc (count c ready) ≤ count c (task_ids tasks) =
        ground (arith, v.bounded c, eq_self c) in
      let fresh : elem c order ≡ false = elim (Bool-cases (elem c order)) [
        | inl y ↦ absurd (omega (arith, once, unique c, count_positive c order y))
        | inr n ↦ n
      ] in
      let met : open_edges order tasks c + 0 ≡ 0 = v.free c (ground (arith, eq_self c)) in
      let listed : elem c (task_ids tasks) ≡ true =
        elem_counted c (task_ids tasks) (omega (arith, once)) in
      elim (Option-cases (get dependents c)) [
        | inl n ↦ cc (rw (n, has) at (x.listed c listed))
        | inr (ks, e) ↦
            let r =
              Released-release tasks (c ∷ order) ks ready counts
                (λ k m. edges_listed tasks k c (
                  omega (
                    arith,
                    count_positive k ks m,
                    rw (dependents_of-found dependents c ks e) at (x.counts k c),
                  )))
                (Visiting-visit c order ready ks counts e fresh v) in
            rw (e, visit_ready)
              (rw r.returns (
                Visits-ready fuel (c ∷ order) r.ready r.counts (omega (arith, enough))
                  (visited c order fresh
                    (λ d p. open_edges_met order tasks c d (omega (arith, met)) p) t)
                  r.visiting))
      ]
