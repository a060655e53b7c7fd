-- ===== src/Runtime/Transactional.antt =====
-- matterloop-runtime/src/python/matterloop_runtime/transactional.py: `execute`, `recover` and
-- `reconcile` of `TransactionalExecutor`, and `pending_records` of ledger.py. `prepare` and `commit`
-- call the ledger. The text of a reason is not modelled.
pub mod Pending
pub mod Recovery
pub mod Stages
mod Tests
use matterloop.Base.{
  ℕ, suc, String, List, [], ◌∷◌, Option, none, some, Bool, true, ◌==◌, ◌&&◌, ◌||◌, keep, ltb, eqb,
  if◌then◌else◌,
}
use matterloop.Base.Text.{text_leb}
use matterloop.Base.Dict.{values}
use matterloop.Runtime.Idempotency.{ExecutorResult, success, failure, interrupted}
use matterloop.Runtime.Ledger.{
  ExecutionStatus, is_pending, ExecutionRecord, Ledger, Result, ok, err, require_reconciliation,
  commit, fail, mark_executing, LedgerError,
}

pub data RecoveryAction : Type 0 where
  release reconcile : RecoveryAction

pub record RecoveryDecision : Type 0 where
  pub execution_id : String
  pub action : RecoveryAction

-- `run_id is None or record.run_id == run_id`
abbrev pub of_run : Option String → ExecutionRecord → Bool
of_run none r = true
of_run (some id) r = r.run_id == id

-- The order of the key `(record.created_at, record.execution_id)`.
unfoldable precedes : ExecutionRecord → ExecutionRecord → Bool
precedes a b =
    ltb a.created_at b.created_at
    || eqb a.created_at b.created_at && text_leb a.execution_id b.execution_id

unfoldable insert_record : ExecutionRecord → List ExecutionRecord → List ExecutionRecord
insert_record r [] = r ∷ []
insert_record r (s ∷ rs) =
    let rest = insert_record r rs in if precedes r s then r ∷ s ∷ rs else s ∷ rest

-- `pending.sort(key=...)`
unfoldable pub sort_records : List ExecutionRecord → List ExecutionRecord
unfolding insert_record precedes
sort_records [] = []
sort_records (r ∷ rs) = insert_record r (sort_records rs)

abbrev pub is_selected : Option String → ExecutionRecord → Bool
is_selected run_id r = is_pending r.status && of_run run_id r

-- `pending_records`
unfoldable pub pending_records : Option String → Ledger → List ExecutionRecord
unfolding is_pending sort_records
pending_records run_id l = sort_records (keep (is_selected run_id) (values l.records))

abbrev pub reconcile_answer : String → Result ExecutionRecord → Result RecoveryDecision
reconcile_answer id (ok updated) =
    ok (record { execution_id = id; action = RecoveryAction.reconcile })
reconcile_answer id (err e) = err e

-- One record of `recover`, at the time `now`: the decision, and the ledger after it.
unfoldable pub recover_record :
    ExecutionStatus → ExecutionRecord → ℕ → Ledger → Result RecoveryDecision × Ledger
recover_record ExecutionStatus.prepared r now l =
    (ok (record { execution_id = r.execution_id; action = RecoveryAction.release }), l)
recover_record status r now l =
    let (result, l') = require_reconciliation r.execution_id now l in
    (reconcile_answer r.execution_id result, l')

abbrev pub cons_decision :
    Result RecoveryDecision → Result (List RecoveryDecision) → Result (List RecoveryDecision)
cons_decision (ok d) (ok ds) = ok (d ∷ ds)
cons_decision (err e) ds = err e
cons_decision (ok d) (err e) = err e

-- The loop of `recover`: the clock is read once for each record; an error of the ledger ends it.
unfoldable pub recover_records :
    (clock : ℕ → ℕ) → ℕ → List ExecutionRecord → Ledger → Result (List RecoveryDecision) × Ledger
unfolding recover_record
recover_records clock n [] l = (ok [], l)
recover_records clock n (r ∷ rs) l =
    let (decision, l') = recover_record r.status r (clock n) l in
    let rest = recover_records clock (suc n) rs l' in
    elim decision [ err e ↦ (err e, l') | ok d ↦ (cons_decision (ok d) rest.0, rest.1) ]

-- `recover`
unfoldable pub recover :
    Option String → (clock : ℕ → ℕ) → Ledger → Result (List RecoveryDecision) × Ledger
unfolding recover_records pending_records
recover run_id clock l = recover_records clock 0 (pending_records run_id l) l

pub data Outcome : Type 0 where
  committed : (result : String) → Outcome
  failed : (text : String) → Outcome

-- `reconcile`
unfoldable pub reconcile_execution : String → Outcome → ℕ → Ledger → Result ExecutionRecord × Ledger
reconcile_execution id (committed result) = commit id result
reconcile_execution id (failed text) = fail id text

-- What `execute` returns: the executor's result, its exception, an error of the
-- ledger, or what interrupts the executor and is no `Exception`.
pub data Executed : Type 0 where
  executed : (result : String) → Executed
  executor_failed : (text : String) → Executed
  refused : LedgerError → Executed
  cancelled : Executed

abbrev refused_or : Executed → Result ExecutionRecord → Executed
refused_or value (ok r) = value
refused_or value (err e) = refused e

-- The `try` statement of `execute`, after the mark.
unfoldable pub run_executor :
    String → ExecutorResult → ℕ → Result ExecutionRecord → Ledger → Executed × Ledger
run_executor id outcome now (err e) l = (refused e, l)
run_executor id (success p) now (ok r) l = (executed p, l)
run_executor id interrupted now (ok r) l = (cancelled, l)
run_executor id (failure text) now (ok r) l =
    let (result, l') = fail id text now l in (refused_or (executor_failed text) result, l')

-- `execute`, marked at `t1`; a failure is recorded at `t2`.
unfoldable pub execute_marked : String → ExecutorResult → ℕ → ℕ → Ledger → Executed × Ledger
unfolding run_executor
execute_marked id outcome t1 t2 l =
    let (r, l') = mark_executing id t1 l in run_executor id outcome t2 r l'
