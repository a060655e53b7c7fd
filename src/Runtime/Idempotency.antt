-- ===== src/Runtime/Idempotency.antt =====
-- matterloop-runtime/src/python/matterloop_runtime/idempotency.py: `IdempotentInvoker.invoke`.
-- The request hash (SHA-256 of the canonical JSON text) and the new execution identifier come with
-- the candidate record; the executor's result and the clock are arguments. An
-- executor that is interrupted raises what is no `Exception`, such as `CancelledError`. A call of
-- `invoke` runs to its end; what other calls may do while it waits for the executor is not modelled. `runs` records the request
-- hashes for which the executor was called, newest first.
pub mod Kept
pub mod Cached
mod Tests
use matterloop.Base.{
  ℕ, String, List, [], ◌∷◌, Option, none, some, Bool, true, false, ◌==◌, if◌then◌else◌,
}
use matterloop.Runtime.Ledger
use matterloop.Runtime.Ledger.{
  ExecutionStatus, ExecutionRecord, Ledger, LedgerError, Result, ok, err, prepare, mark_executing,
  commit, fail,
}

pub data ExecutorResult : Type 0 where
  success : String → ExecutorResult
  failure : (text : String) → ExecutorResult
  interrupted : ExecutorResult

pub data InvokeResult : Type 0 where
  result : String → InvokeResult
  duplicate : String → ExecutionStatus → InvokeResult
  ledger_error : LedgerError → InvokeResult
  missing_payload : InvokeResult
  executor_error : (text : String) → InvokeResult
  cancelled : InvokeResult

pub record Invoker : Type 0 where
  pub ledger : Ledger
  pub runs : List String

unfoldable pub payload_result : Option String → InvokeResult
payload_result none = missing_payload
payload_result (some p) = result p

-- What a record that another call has made is worth.
unfoldable pub reuse : ExecutionStatus → ExecutionRecord → InvokeResult
unfolding payload_result
reuse ExecutionStatus.committed r = payload_result r.result_payload
reuse status r = duplicate r.execution_id status

abbrev pub settled : InvokeResult → Result ExecutionRecord → InvokeResult
settled value (ok r) = value
settled value (err e) = ledger_error e

-- After the executor: the failure is recorded and raised again, the result is committed, and what is
-- no `Exception` goes on with the record in execution.
unfoldable pub settle : ExecutionRecord → ExecutorResult → ℕ → Invoker → InvokeResult × Invoker
settle c (failure text) now s =
    let (r, l) = fail c.execution_id text now s.ledger in
    (settled (executor_error text) r, record s { ledger = l })
settle c interrupted now s = (cancelled, s)
settle c (success p) now s =
    let (r, l) = commit c.execution_id p now s.ledger in
    (settled (result p) r, record s { ledger = l })

unfoldable pub call_executor :
    ExecutionRecord → ExecutorResult → ℕ → Result ExecutionRecord → Invoker → InvokeResult × Invoker
call_executor c outcome now (err e) s = (ledger_error e, s)
call_executor c outcome now (ok r) s =
    settle c outcome now (record s { runs = c.request_hash ∷ s.runs })

unfoldable pub execute_prepared :
    ExecutionRecord → ExecutorResult → ℕ → ℕ → Invoker → InvokeResult × Invoker
execute_prepared c outcome t1 t2 s =
    let (r, l) = mark_executing c.execution_id t1 s.ledger in
    call_executor c outcome t2 r (record s { ledger = l })

unfoldable pub on_prepared :
    ExecutionRecord
    → ExecutorResult
    → ℕ
    → ℕ
    → Result ExecutionRecord
    → Invoker
    → InvokeResult × Invoker
on_prepared c outcome t1 t2 (err e) s = (ledger_error e, s)
on_prepared c outcome t1 t2 (ok r) s =
    if r.execution_id == c.execution_id
    then execute_prepared c outcome t1 t2 s
    else (reuse r.status r, s)

-- `invoke`
unfoldable pub invoke : ExecutionRecord → ExecutorResult → ℕ → ℕ → Invoker → InvokeResult × Invoker
invoke c outcome t1 t2 s =
    let (r, l) = prepare c s.ledger in on_prepared c outcome t1 t2 r (record s { ledger = l })
