-- ===== src/Runtime/Ledger.antt =====
-- matterloop-runtime/src/python/matterloop_runtime/ledger.py: `InMemoryExecutionLedger`. Each method
-- runs under the ledger's lock, so a method is one step on the two dictionaries.
pub mod Laws
pub mod Life
mod Tests
use matterloop.Base.{
  ℕ, ◌+◌, String, List, [], ◌∷◌, Option, none, some, Bool, true, false, ◌&&◌, ◌==◌, if◌then◌else◌,
}
use matterloop.Base.Dict.{Dict, get, put}

pub data ExecutionStatus : Type 0 where
  prepared executing committed failed reconciliation_required : ExecutionStatus

unfoldable pub is_pending : ExecutionStatus → Bool
is_pending ExecutionStatus.prepared = true
is_pending ExecutionStatus.executing = true
is_pending _ = false

-- `current in _LEGAL_TRANSITIONS[target]`
unfoldable pub legal : (current target : ExecutionStatus) → Bool
legal ExecutionStatus.prepared ExecutionStatus.executing = true
legal ExecutionStatus.executing ExecutionStatus.committed = true
legal ExecutionStatus.reconciliation_required ExecutionStatus.committed = true
legal ExecutionStatus.executing ExecutionStatus.failed = true
legal ExecutionStatus.reconciliation_required ExecutionStatus.failed = true
legal ExecutionStatus.executing ExecutionStatus.reconciliation_required = true
legal _ _ = false

abbrev pub is_prepared : ExecutionStatus → Bool
is_prepared ExecutionStatus.prepared = true
is_prepared _ = false

pub record ExecutionRecord : Type 0 where
  pub execution_id : String
  pub run_id : String
  pub request_hash : String
  pub task_id : Option String
  pub agent_id : Option String
  pub tool_id : Option String
  pub status : ExecutionStatus
  pub result_payload : Option String
  pub error : String
  pub created_at : ℕ
  pub updated_at : ℕ
  pub attempt : ℕ

-- `_records` and `_by_hash`.
pub record Ledger : Type 0 where
  pub records : Dict ExecutionRecord
  pub by_hash : Dict String

abbrev pub empty : Ledger
empty = record { records = []; by_hash = [] }

pub data LedgerError : Type 0 where
  not_prepared already_bound not_found illegal_transition key_error : LedgerError

pub data Result {ℓ} (A : Type ℓ) : Type ℓ where
  ok : A → Result A
  err : LedgerError → Result A

-- A new record under its two keys.
unfoldable pub register : ExecutionRecord → Ledger → Ledger
register r l = record l {
  records = put l.records r.execution_id r;
  by_hash = put l.by_hash r.request_hash r.execution_id;
}

unfoldable pub prepare_new : ExecutionRecord → Ledger → Result ExecutionRecord × Ledger
unfolding register
prepare_new r l =
    if is_prepared r.status
    then (elim (get l.records r.execution_id) [
      | none ↦ (ok r, register r l)
      | some other ↦ (err already_bound, l)
    ])
    else (err not_prepared, l)

-- `self._records[existing_id]`
unfoldable pub read_record : Option ExecutionRecord → Result ExecutionRecord
read_record none = err key_error
read_record (some r) = ok r

-- `prepare`
unfoldable pub prepare : ExecutionRecord → Ledger → Result ExecutionRecord × Ledger
unfolding prepare_new read_record
prepare r l = elim (get l.by_hash r.request_hash) [
  | some existing_id ↦ (read_record (get l.records existing_id), l)
  | none ↦ prepare_new r l
]

-- The fields that a transition may set.
unfoldable pub update_record :
    ExecutionStatus → Option String → Option String → ℕ → ExecutionRecord → ExecutionRecord
update_record target payload text now r = record r {
  status = target;
  result_payload = elim payload [ none ↦ r.result_payload | some p ↦ some p ];
  error = elim text [ none ↦ r.error | some t ↦ t ];
  updated_at = now;
}

unfoldable pub transition_record :
    String
    → ExecutionStatus
    → Option String
    → Option String
    → ℕ
    → ExecutionRecord
    → Ledger
    → Result ExecutionRecord × Ledger
unfolding update_record
transition_record id target payload text now current l =
    if legal current.status target
    then (let updated = update_record target payload text now current in
        (ok updated, record l { records = put l.records id updated }))
    else (err illegal_transition, l)

-- `_transition` at the time `now`.
unfoldable pub transition :
    String
    → ExecutionStatus
    → Option String
    → Option String
    → ℕ
    → Ledger
    → Result ExecutionRecord × Ledger
unfolding transition_record
transition id target payload text now l = elim (get l.records id) [
  | none ↦ (err not_found, l)
  | some current ↦ transition_record id target payload text now current l
]

unfoldable pub mark_executing : String → ℕ → Ledger → Result ExecutionRecord × Ledger
unfolding transition
mark_executing id = transition id ExecutionStatus.executing none none

unfoldable pub commit : String → String → ℕ → Ledger → Result ExecutionRecord × Ledger
unfolding transition
commit id payload = transition id ExecutionStatus.committed (some payload) (some "")

unfoldable pub fail : String → String → ℕ → Ledger → Result ExecutionRecord × Ledger
unfolding transition
fail id text = transition id ExecutionStatus.failed none (some text)

unfoldable pub require_reconciliation : String → ℕ → Ledger → Result ExecutionRecord × Ledger
unfolding transition
require_reconciliation id = transition id ExecutionStatus.reconciliation_required none none

-- `find_by_hash`
unfoldable pub find_by_hash : String → Ledger → Result (Option ExecutionRecord)
unfolding read_record
find_by_hash hash l = elim (get l.by_hash hash) [
  | none ↦ ok none
  | some id ↦ elim (get l.records id) [ none ↦ err key_error | some r ↦ ok (some r) ]
]
