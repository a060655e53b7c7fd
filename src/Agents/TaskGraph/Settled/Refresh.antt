-- ===== src/Agents/TaskGraph/Settled/Refresh.antt =====
-- The loop of `_refresh_pending` of task_graph.py: what the deque has still to visit.
use matterloop.Base.{
  ◌≡◌, refl, ap, ℕ, zero, suc, ◌+◌, ◌<◌, ◌⊎◌, inl, inr, String, List, [], ◌∷◌, none, some, true,
  false, elem, length, arith, ◌==◌, eq_iff, eq_self, Bool-cases, Option-cases,
}
use matterloop.Base.Dict.{Dict, get, put, get-put}
use matterloop.Agents.Tasks.{TaskStatus, TaskState}
use matterloop.Agents.TaskGraph.{
  Result, ok, err, is_pending, dependency_statuses, refreshed, visit, refresh_rounds, enqueue,
  dependents_of, potential,
}
use matterloop.Agents.TaskGraph.Cases.{visit-Visited, missing, left, moved, dependents_of-found}
use matterloop.Agents.TaskGraph.Order.{done_in, refreshed_done}
use matterloop.Agents.TaskGraph.Settled.{
  failed_in, has, Waits, IsSettled, IsIndexed, statuses_known, statuses_any, elem-enqueue,
  length-enqueue, Waits-congr,
}

-- A pending task that does not wait is in the deque.
pub record Covers (pending : List String) (states : Dict TaskState) : Type 0 where
  pub at :
      (id : String) (s : TaskState)
      → get states id ≡ some s
      → is_pending s.status ≡ true
      → (elem id pending ≡ true) ⊎ Waits states s

module _ (states : Dict TaskState) (id : String) (s u : TaskState) (found : get states id ≡ some s)
    (same_spec : u.spec ≡ s.spec) where
  pub has-put : (k : String) → has (put states id u) k ≡ has states k
  has-put k = ground (arith, get-put states id k u, found, eq_iff id k)

  -- A task after the write: the task before it, or the one that was written.
  pub IsIndexed-put :
      (dependents : Dict (List String))
      → IsIndexed dependents states
      → IsIndexed dependents (put states id u)
  IsIndexed-put dependents x = record {
    indexed = λ k t e d m. elim (Bool-cases (id == k)) [
      | inl y ↦
          let same : u ≡ t = cc (rw (get-put, y) at e) in
          rw (← (eq_iff id k).0 y) (x.indexed id s found d (rw (← same, same_spec) at m))
      | inr n ↦ x.indexed k t (rw (get-put, n) at e) d m
    ];
    known = λ k t e d m. rw has-put (elim (Bool-cases (id == k)) [
      | inl y ↦
          let same : u ≡ t = cc (rw (get-put, y) at e) in
          x.known id s found d (rw (← same, same_spec) at m)
      | inr n ↦ x.known k t (rw (get-put, n) at e) d m
    ]);
    listed = λ k h. x.listed k (rw has-put at h);
    tasks = λ d k m. rw has-put (x.tasks d k m);
  }

  Waits-put :
      (t : TaskState)
      → elem id t.spec.dependencies ≡ false
      → Waits states t
      → Waits (put states id u) t
  unfolding failed_in done_in
  Waits-put t absent = Waits-congr states (put states id u) t (λ d m. elim (Bool-cases (id == d)) [
    | inl y ↦ cc ((eq_iff id d).0 y, absent, m)
    | inr n ↦ (ground (arith, get-put states id d u, n), ground (arith, get-put states id d u, n))
  ])

  -- The dependents of a task that has left PENDING cover what its change may release.
  pub Covers-put :
      (dependents : Dict (List String)) (rest : List String)
      → IsIndexed dependents states
      → is_pending u.status ≡ false
      → ((k : String) (t : TaskState)
          → get states k ≡ some t
          → is_pending t.status ≡ true
          → (id == k) ≡ false
          → (elem k rest ≡ true) ⊎ Waits states t)
      → Covers (enqueue rest (dependents_of dependents id)) (put states id u)
  Covers-put dependents rest x left_pending before = record {
    at = λ k t e p. elim (Bool-cases (id == k)) [
      | inl y ↦ let same : u ≡ t = cc (rw (get-put, y) at e) in cc
      | inr n ↦
          let e' : get states k ≡ some t = rw (get-put, n) at e in
          elim (before k t e' p n) [
            | inl m ↦ inl (rw elem-enqueue (ground (arith, m)))
            | inr w ↦ elim (Bool-cases (elem id t.spec.dependencies)) [
              | inl y ↦ inl (rw elem-enqueue (ground (arith, x.indexed k t e' id y)))
              | inr a ↦ inr (Waits-put t a w)
            ]
          ]
    ];
  }

-- A task that `_refresh_pending` leaves waits for a dependency; one that it changes leaves PENDING.
Waits-refreshed :
    (states : Dict TaskState) (s : TaskState) (ts : List TaskStatus)
    → dependency_statuses states s.spec.dependencies ≡ some ts
    → refreshed s ts ≡ none
    → Waits states s
unfolding refreshed
Waits-refreshed states s ts q n = record {
  none_failed = ground (arith, statuses_any states s.spec.dependencies ts q, n);
  some_open = ground (arith, statuses_any states s.spec.dependencies ts q, n);
}

refreshed_left :
    (s u : TaskState) (ts : List TaskStatus) → refreshed s ts ≡ some u → is_pending u.status ≡ false
unfolding refreshed
refreshed_left s u ts w = ground arith

potential-put :
    (dependents : Dict (List String)) (states : Dict TaskState) (id : String) (s u : TaskState)
    → get states id ≡ some s
    → is_pending s.status ≡ true
    → is_pending u.status ≡ false
    → potential dependents (put states id u) + length (dependents_of dependents id)
      ≡ potential dependents states
unfolding potential get put
potential-put dependents [] id s u e p n = cc
potential-put dependents ((j, t) ∷ states) id s u e p n = elim (Bool-cases (j == id)) [
  | inl y ↦ let same : t ≡ s = cc (rw y at e) in rw (y, n, same, p, (eq_iff j id).0 y) (omega arith)
  | inr m ↦ rw m (omega (arith, potential-put dependents states id s u (rw m at e) p n))
]

-- What a run of the loop is to do.
pub record Settles (dependents : Dict (List String)) (r : Result Unit × Dict TaskState)
    : Type 0 where
  pub returns : r.0 ≡ ok tt
  pub settled : IsSettled r.1
  pub still_indexed : IsIndexed dependents r.1

module _ (fuel : ℕ) (dependents : Dict (List String)) (id : String) (rest : List String)
    (states : Dict TaskState) (x : IsIndexed dependents states) (c : Covers (id ∷ rest) states)
    (there : (k : String) → elem k (id ∷ rest) ≡ true → has states k ≡ true)
    (enough : length (id ∷ rest) + potential dependents states < suc fuel) where
  -- The run of the rounds that are left.
  abbrev Next : Type 0
  Next =
      (pending : List String) (t : Dict TaskState)
      → IsIndexed dependents t
      → Covers pending t
      → ((k : String) → elem k pending ≡ true → has t k ≡ true)
      → length pending + potential dependents t < fuel
      → Settles dependents (refresh_rounds fuel dependents pending t)

  Settles-left :
      ((s : TaskState)
        → get states id ≡ some s
        → is_pending s.status ≡ true
        → (ts : List TaskStatus) × (dependency_statuses states s.spec.dependencies ≡ some ts)
          × (refreshed s ts ≡ none))
      → Next
      → Settles dependents (refresh_rounds fuel dependents rest states)
  Settles-left settled next =
      next rest states x
        (record {
          at = λ k t e p. elim (Bool-cases (k == id)) [
            | inl y ↦
                let (ts, q, n) = settled t (rw (← (eq_iff k id).0 y) e) p in
                inr (Waits-refreshed states t ts q n)
            | inr n ↦ elim (c.at k t e p) [ inl m ↦ inl (ground (arith, m, n)) | inr w ↦ inr w ]
          ];
        })
        (λ k m. there k (ground (arith, m))) (omega (arith, enough))

  Settles-moved :
      (s u : TaskState) (ts : List TaskStatus)
      → get states id ≡ some s
      → is_pending s.status ≡ true
      → dependency_statuses states s.spec.dependencies ≡ some ts
      → refreshed s ts ≡ some u
      → Next
      → Settles dependents (
          refresh_rounds fuel dependents
            (enqueue rest (dependents_of dependents id))
            (put states id u))
  Settles-moved s u ts found y q w next =
      let same_spec : u.spec ≡ s.spec = (refreshed_done states s u ts q w).0 in
      let gone : is_pending u.status ≡ false = refreshed_left s u ts w in
      next _ _ (IsIndexed-put states id s u found same_spec dependents x)
        (Covers-put states id s u found same_spec dependents rest x gone (λ k t e p n.
          elim (c.at k t e p) [
            | inl m ↦ inl (ground (arith, m, n, eq_iff k id, eq_iff id k))
            | inr w ↦ inr w
          ]))
        (λ k m. rw (has-put states id s u found same_spec) (elim (Bool-cases (elem k rest)) [
          | inl r ↦ there k (ground (arith, r))
          | inr n ↦ x.tasks id k (ground (arith, rw elem-enqueue at m, n))
        ]))
        (omega (
          arith,
          enough,
          potential-put dependents states id s u found y gone,
          length-enqueue rest (dependents_of dependents id),
        ))

-- A round that goes well, and the rounds after it.
rounds-visit :
    (fuel : ℕ) (dependents : Dict (List String)) (id : String) (rest pending : List String)
    (states t : Dict TaskState)
    → visit dependents id rest states ≡ (ok pending, t)
    → refresh_rounds (suc fuel) dependents (id ∷ rest) states
      ≡ refresh_rounds fuel dependents pending t
unfolding refresh_rounds
rounds-visit fuel dependents id rest pending states t =
    ap (λ (v : Result (List String) × Dict TaskState).
      elim v.0 as (λ x. Result Unit × Dict TaskState) [
        | err e ↦ (err e, v.1)
        | ok p ↦ refresh_rounds fuel dependents p v.1
      ])

pub rounds_settle :
    (fuel : ℕ) (dependents : Dict (List String)) (pending : List String) (states : Dict TaskState)
    → IsIndexed dependents states
    → Covers pending states
    → ((k : String) → elem k pending ≡ true → has states k ≡ true)
    → length pending + potential dependents states < fuel
    → Settles dependents (refresh_rounds fuel dependents pending states)
unfolding refresh_rounds
rounds_settle zero dependents pending states x c there enough = absurd (omega arith)
rounds_settle (suc fuel) dependents [] states x c there enough = record {
  returns = refl;
  settled = record { at = λ k t e p. elim (c.at k t e p) [ inl m ↦ cc | inr w ↦ w ] };
  still_indexed = x;
}
rounds_settle (suc fuel) dependents (id ∷ rest) states x c there enough =
    elim (visit-Visited dependents id rest states) [
      | missing q why ↦ elim why [
        | inl n ↦ cc (rw (n, has) at (there id (ground (arith, eq_self id))))
        | inr (s, e, n) ↦
            let (ts, k) = statuses_known states s.spec.dependencies (x.known id s e) in cc
      ]
      | left q settled ↦ rw (rounds-visit fuel dependents id rest _ states _ q) (
          Settles-left fuel dependents id rest states x c there enough settled
            (λ p t. rounds_settle fuel dependents p t))
      | moved s u ts found y q w same ↦ elim (Option-cases (get dependents id)) [
        | inl n ↦ cc (rw (n, has) at (x.listed id (there id (ground (arith, eq_self id)))))
        | inr (ds, f) ↦
            rw
              (rounds-visit fuel dependents id rest (enqueue rest ds) states (put states id u)
                (rw f at same))
              (rw (dependents_of-found dependents id ds f) at (
                Settles-moved fuel dependents id rest states x c there enough s u ts found y q w
                  (λ p t. rounds_settle fuel dependents p t)))
      ]
    ]
