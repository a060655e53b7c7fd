-- ===== src/Agents/TaskGraph/Settled/Steps.antt =====
-- The methods of `TaskGraph` (task_graph.py) keep the index and leave no releasable task pending.
use matterloop.Base.{
  ◌≡◌, refl, ◌+◌, inl, inr, String, List, [], some, Bool, true, false, elem, length, suc, arith,
  ◌==◌, eq_iff, Bool-cases, Option-cases,
}
use matterloop.Base.Dict.{get, put, get-put}
use matterloop.Agents.Tasks.{TaskStatus, TaskState}
use matterloop.Agents.TaskGraph
use matterloop.Agents.TaskGraph.{
  Result, ok, err, is_succeeded, is_pending, is_ready, is_failed_dependency, is_in_progress,
  refresh_pending, refresh_rounds, enqueue, from_keys, dependents_of, potential, change_when,
  unlock,
}
use matterloop.Agents.TaskGraph.Cases.{change-Changed, refused, stored, dependents_of-found}
use matterloop.Agents.TaskGraph.Order.{done_in}
use matterloop.Agents.TaskGraph.Runs.{is_active}
use matterloop.Agents.TaskGraph.Settled.{
  failed_in, has, IsSettled, IsIndexed, elem-enqueue, Waits-congr,
}
use matterloop.Agents.TaskGraph.Settled.Refresh.{
  Covers, Covers-put, IsIndexed-put, has-put, Settles, rounds_settle,
}

pub record IsHealthy (g : TaskGraph.TaskGraph) : Type 0 where
  pub index : IsIndexed g.dependents g.states
  pub settled : IsSettled g.states

active_not_pending : (t : TaskStatus) → is_active t ≡ true → is_pending t ≡ false
unfolding is_in_progress
active_not_pending t h = ground arith

module _ (g : TaskGraph.TaskGraph) (h : IsHealthy g) where
  IsHealthy-put :
      (id : String) (s u : TaskState)
      → get g.states id ≡ some s
      → u.spec ≡ s.spec
      → is_active s.status ≡ true
      → is_active u.status ≡ true
      → IsHealthy (record g { states = put g.states id u })
  unfolding failed_in done_in is_in_progress is_failed_dependency
  IsHealthy-put id s u found same a b = record {
    index = IsIndexed-put g.states id s u found same g.dependents h.index;
    settled = record {
      at = λ k t e p. elim (Bool-cases (id == k)) [
        | inl y ↦
            let q : u ≡ t = cc (rw (get-put, y) at e) in cc (q, p, active_not_pending u.status b)
        | inr n ↦
            Waits-congr g.states _ t
              (λ d m. (
                ground (arith, get-put g.states id d u, found, a, b, eq_iff id d),
                ground (arith, get-put g.states id d u, found, a, b, eq_iff id d),
              ))
              (h.settled.at k t (rw (get-put, n) at e) p)
      ];
    };
  }

  pub IsHealthy-change :
      (id : String) (allowed : TaskStatus → Bool) (guard : TaskState → Bool)
      (f : TaskState → TaskState)
      → ((s : TaskState)
          → allowed s.status ≡ true
          → ((f s).spec ≡ s.spec) × (is_active s.status ≡ true) × (is_active (f s).status ≡ true))
      → IsHealthy (change_when id allowed guard f g).1
  IsHealthy-change id allowed guard f a = elim (change-Changed id allowed guard f g) [
    | refused e q ↦ rw q h
    | stored s found y w v q ↦
        rw q (let (same, before, after) = a s y in IsHealthy-put id s (f s) found same before after)
  ]

-- `_refresh_pending` of tasks that are there.
module _ (ids : List String) (g : TaskGraph.TaskGraph) (x : IsIndexed g.dependents g.states)
    (c : Covers (from_keys ids) g.states)
    (there : (k : String) → elem k (from_keys ids) ≡ true → has g.states k ≡ true) where
  Settles-refresh :
      Settles g.dependents ((refresh_pending ids g).0, (refresh_pending ids g).1.states)
  unfolding refresh_pending
  Settles-refresh =
      rounds_settle (suc (length (from_keys ids) + potential g.dependents g.states)) g.dependents
        (from_keys ids) g.states x c there (omega arith)

  pub IsHealthy-refresh : IsHealthy (refresh_pending ids g).1
  unfolding refresh_pending
  IsHealthy-refresh = record {
    index = Settles-refresh.still_indexed;
    settled = Settles-refresh.settled;
  }

unlock-found :
    (id : String) (u : TaskState) (ds : List String) (g : TaskGraph.TaskGraph)
    → get g.dependents id ≡ some ds
    → (unlock id (ok u) g).1 ≡ (refresh_pending ds g).1
unfolding unlock
unlock-found id u ds g e = rw (e, unlock) refl

module _ (g : TaskGraph.TaskGraph) (h : IsHealthy g) where
  -- A change that may release or block other tasks, and the visit of its dependents.
  pub IsHealthy-unlock :
      (id : String) (allowed : TaskStatus → Bool) (guard : TaskState → Bool)
      (f : TaskState → TaskState)
      → ((s : TaskState)
          → allowed s.status ≡ true
          → ((f s).spec ≡ s.spec) × (is_pending (f s).status ≡ false))
      → IsHealthy
          (unlock id (change_when id allowed guard f g).0 (change_when id allowed guard f g).1).1
  unfolding from_keys unlock
  IsHealthy-unlock id allowed guard f a = elim (change-Changed id allowed guard f g) [
    | refused e q ↦ rw (q, unlock) h
    | stored s found y w v q ↦ elim (Option-cases (get g.dependents id)) [
      | inl n ↦ cc (rw (n, has) at (h.index.listed id (rw (found, has) refl)))
      | inr (ds, k) ↦
          let (same, gone) = a s y in
          let of : dependents_of g.dependents id ≡ ds = dependents_of-found g.dependents id ds k in
          rw q (
            rw (unlock-found id (f s) ds (record g { states = put g.states id (f s) }) k) (
              IsHealthy-refresh ds (record g { states = put g.states id (f s) })
                (IsIndexed-put g.states id s (f s) found same g.dependents h.index)
                (rw of at (
                  Covers-put g.states id s (f s) found same g.dependents [] h.index gone
                    (λ j t e p n. inr (h.settled.at j t e p))))
                (λ j m.
                  rw (has-put g.states id s (f s) found same)
                    (h.index.tasks id j (rw of (ground (arith, elem-enqueue j [] ds, m)))))))
    ]
  ]
