-- ===== src/Runtime/Transactional/Stages.antt =====
-- The three stages of `TransactionalExecutor` (transactional.py) on a new request.
use matterloop.Base.{◌≡◌, refl, ℕ, String, Option, none, some, true, arith, eq_self}
use matterloop.Base.Dict.{Dict, get, put, get-put}
use matterloop.Runtime.Idempotency.{success}
use matterloop.Runtime.Ledger.{
  ExecutionStatus, ExecutionRecord, Ledger, ok, register, prepare, prepare_new, transition,
  transition_record, update_record, mark_executing, commit, find_by_hash, legal,
}
use matterloop.Runtime.Transactional.{Executed, execute_marked, run_executor}

get-put_self : {A : Type 0} (d : Dict A) (k : String) (v : A) → get (put d k v) k ≡ some v
get-put_self d k v = rw (get-put, eq_self) refl

-- The record that the stages of a request leave.
abbrev pub committed_record : ExecutionRecord → String → ℕ → ExecutionRecord
committed_record q p now = record q {
  status = ExecutionStatus.committed;
  result_payload = some p;
  error = "";
  updated_at = now;
}

module _ (q : ExecutionRecord) (l : Ledger) where
  prepare-new :
      get l.by_hash q.request_hash ≡ none
      → get l.records q.execution_id ≡ none
      → q.status ≡ ExecutionStatus.prepared
      → prepare q l ≡ (ok q, register q l)
  unfolding prepare prepare_new
  prepare-new fresh_hash fresh_id st = ground (arith, fresh_hash, fresh_id, st)

-- A transition of the record that stands under an identifier.
pub transition-found :
    (id : String) (target : ExecutionStatus) (payload text : Option String) (now : ℕ)
    (r : ExecutionRecord) (l : Ledger)
    → get l.records id ≡ some r
    → legal r.status target ≡ true
    → transition id target payload text now l ≡ (
      ok (update_record target payload text now r),
      record l { records = put l.records id (update_record target payload text now r) },
    )
unfolding transition transition_record
transition-found id target payload text now r l found ok_now = ground (arith, found, ok_now)

find_by_hash-found :
    (hash id : String) (r : ExecutionRecord) (l : Ledger)
    → get l.by_hash hash ≡ some id
    → get l.records id ≡ some r
    → find_by_hash hash l ≡ ok (some r)
unfolding find_by_hash
find_by_hash-found hash id r l indexed stored = ground (arith, indexed, stored)

-- A request whose hash and identifier are new, in the stages prepare, execute and commit, with an
-- executor that returns `p`: `execute` returns `p`, and the lookup by the hash then finds the
-- prepared record as committed, with `p` as its payload.
pub stages_commit :
    (q : ExecutionRecord) (p : String) (t1 t2 t3 : ℕ) (l : Ledger)
    → get l.by_hash q.request_hash ≡ none
    → get l.records q.execution_id ≡ none
    → q.status ≡ ExecutionStatus.prepared
    → ((execute_marked q.execution_id (success p) t1 t2 (prepare q l).1).0 ≡ Executed.executed p)
      × (find_by_hash q.request_hash
            (commit q.execution_id p t3
              (execute_marked q.execution_id (success p) t1 t2 (prepare q l).1).1).1
          ≡ ok (some (committed_record q p t3)))
unfolding execute_marked mark_executing commit run_executor register find_by_hash
stages_commit q p t1 t2 t3 l fresh_hash fresh_id st =
    let marked : ExecutionRecord = update_record ExecutionStatus.executing none none t1 q in
    let running : Ledger = record (register q l) {
      records = put (register q l).records q.execution_id marked;
    } in
    let started =
      transition-found q.execution_id ExecutionStatus.executing none none t1 q (register q l)
        (get-put_self _ _ _) (unfold legal in rw st refl) in
    let finished =
      transition-found q.execution_id ExecutionStatus.committed (some p) (some "") t3 marked running
        (get-put_self _ _ _) (unfold legal update_record in refl) in
    rw (prepare-new q l fresh_hash fresh_id st, started, finished)
      (
        refl,
        unfold update_record in
            find_by_hash-found q.request_hash q.execution_id (committed_record q p t3) _
              (get-put_self _ _ _) (get-put_self _ _ _),
      )
