-- ===== src/Runtime/Idempotency/Kept.antt =====
-- A request's committed result stays in the ledger (ledger.py) through any calls.
use matterloop.Base.{
  ◌≡◌, ℕ, String, List, [], ◌∷◌, Option, none, some, arith, ◌==◌, eq_iff, inl, inr, Option-cases,
  Bool-cases,
}
use matterloop.Base.Dict.{get, get-put}
use matterloop.Runtime.Ledger.{
  ExecutionStatus, ExecutionRecord, Ledger, prepare, prepare_new, register, transition,
  mark_executing, commit, fail, require_reconciliation, is_prepared,
}
use matterloop.Runtime.Ledger.Laws.{
  Action, prepare_it, start_it, commit_it, fail_it, reconcile_it, step, run,
}
use matterloop.Runtime.Ledger.Life.{final_is_kept}

-- A request's committed result.
pub record Cached (l : Ledger) (hash p : String) : Type 0 where
  pub id : String
  pub found : ExecutionRecord
  pub indexed : get l.by_hash hash ≡ some id
  pub stored : get l.records id ≡ some found
  pub own_id : found.execution_id ≡ id
  pub committed : found.status ≡ ExecutionStatus.committed
  pub payload : found.result_payload ≡ some p

-- Calls of the ledger do not change the index of a hash that it has.
module _ (l : Ledger) (h k : String) (here : get l.by_hash h ≡ some k) where
  index_kept_by_new :
      (q : ExecutionRecord)
      → get l.by_hash q.request_hash ≡ none
      → get (prepare_new q l).1.by_hash h ≡ some k
  unfolding prepare_new register
  index_kept_by_new q absent = elim (Bool-cases (is_prepared q.status)) [
    | inr n ↦ rw n here
    | inl y ↦ elim (Option-cases (get l.records q.execution_id)) [
      | inr (o, e) ↦ rw (y, e) here
      | inl e ↦
          rw (y, e)
            (rw get-put (elim (Bool-cases (q.request_hash == h)) [
              | inr n ↦ rw n here
              | inl i ↦ cc ((eq_iff q.request_hash h).0 i)
            ]))
    ]
  ]

  index_kept_by_prepare : (q : ExecutionRecord) → get (prepare q l).1.by_hash h ≡ some k
  index_kept_by_prepare q = elim (Option-cases (get l.by_hash q.request_hash)) [
    | inr (id, e) ↦ unfold prepare in rw (e, prepare) here
    | inl e ↦ unfold prepare in rw (e, prepare) (index_kept_by_new q e)
  ]

pub by_hash-transition :
    (id : String) (target : ExecutionStatus) (payload text : Option String) (now : ℕ) (l : Ledger)
    → (transition id target payload text now l).1.by_hash ≡ l.by_hash
unfolding transition
by_hash-transition id target payload text now l = ground arith

index_kept_by_step :
    (a : Action) (l : Ledger) (h k : String)
    → get l.by_hash h ≡ some k
    → get (step a l).by_hash h ≡ some k
unfolding step mark_executing commit fail require_reconciliation
index_kept_by_step (prepare_it q) l h k here = index_kept_by_prepare l h k here q
index_kept_by_step (start_it id now) l h k here = rw by_hash-transition here
index_kept_by_step (commit_it id p now) l h k here = rw by_hash-transition here
index_kept_by_step (fail_it id t now) l h k here = rw by_hash-transition here
index_kept_by_step (reconcile_it id now) l h k here = rw by_hash-transition here

index_kept_by_run :
    (actions : List Action) (l : Ledger) (h k : String)
    → get l.by_hash h ≡ some k
    → get (run actions l).by_hash h ≡ some k
unfolding run
index_kept_by_run [] l h k here = here
index_kept_by_run (a ∷ rest) l h k here =
    index_kept_by_run rest (step a l) h k (index_kept_by_step a l h k here)

-- A cached result survives any calls on the ledger.
pub Cached-run :
    (actions : List Action) (l : Ledger) (hash p : String)
    → Cached l hash p
    → Cached (run actions l) hash p
Cached-run actions l hash p c = record {
  id = c.id;
  found = c.found;
  indexed = index_kept_by_run actions l hash c.id c.indexed;
  stored = final_is_kept actions l c.id c.found c.stored (rw (c.committed));
  own_id = c.own_id;
  committed = c.committed;
  payload = c.payload;
}
