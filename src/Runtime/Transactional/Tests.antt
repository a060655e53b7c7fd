-- ===== src/Runtime/Transactional/Tests.antt =====
-- The three stages at one concrete request.
use matterloop.Base.{◌≡◌, refl, ℕ, String, List, none, some, [], ◌∷◌, map}
use matterloop.Base.Dict.{get, put}
use matterloop.Runtime.Idempotency.{success}
use matterloop.Runtime.Ledger.{
  ExecutionStatus, ExecutionRecord, Ledger, ok, empty, prepare, commit, find_by_hash,
  require_reconciliation, legal,
}
use matterloop.Runtime.Transactional.{Executed, RecoveryAction, execute_marked, recover}
use matterloop.Runtime.Transactional.Pending.{find, InOrder, Distinct}
use matterloop.Runtime.Transactional.Recovery.{IsDue, InRun, decide, marked, recover_marks}
use matterloop.Runtime.Transactional.Stages.{committed_record, stages_commit}

abbrev new_request : ExecutionRecord
new_request = record {
  execution_id = "e1";
  run_id = "r";
  request_hash = "h1";
  task_id = none;
  agent_id = none;
  tool_id = none;
  status = ExecutionStatus.prepared;
  result_payload = none;
  error = "";
  created_at = 0;
  updated_at = 0;
  attempt = 1;
}

stages_commit_example :
    ((execute_marked "e1" (success "{}") 1 2 (prepare new_request empty).1).0
      ≡ Executed.executed "{}")
    × (find_by_hash "h1"
          (commit "e1" "{}" 3
            (execute_marked "e1" (success "{}") 1 2 (prepare new_request empty).1).1).1
        ≡ ok (some (committed_record new_request "{}" 3)))
unfolding get
stages_commit_example = stages_commit new_request "{}" 1 2 3 empty refl refl refl

-- A prepared record and a later one in execution.
abbrev crashed : Ledger
crashed = record {
  records =
      (
        "e2",
        record new_request {
          execution_id = "e2";
          request_hash = "h2";
          status = ExecutionStatus.executing;
          created_at = 7;
        },
      )
      ∷ ("e1", new_request)
      ∷ [];
  by_hash = ("h2", "e2") ∷ ("h1", "e1") ∷ [];
}

recover_marks_example :
    ((rs : List ExecutionRecord) × ((recover (some "r") (λ n. 9) crashed).0 ≡ ok (map decide rs))
      × InOrder rs
      × Distinct rs
      × ((k : String) (r : ExecutionRecord)
          → find k rs ≡ some r
          → (get crashed.records k ≡ some r) × IsDue (some "r") r)
      × ((k : String) (r : ExecutionRecord)
          → get crashed.records k ≡ some r
          → IsDue (some "r") r
          → find k rs ≡ some r))
    × ((k : String) (r : ExecutionRecord)
        → get crashed.records k ≡ some r
        → r.status ≡ ExecutionStatus.executing
        → InRun (some "r") r
        → (now : ℕ) × (get (recover (some "r") (λ n. 9) crashed).1.records k ≡ some (marked now r)))
    × ((k : String) (r : ExecutionRecord)
        → get crashed.records k ≡ some r
        → ¬ ((r.status ≡ ExecutionStatus.executing) × InRun (some "r") r)
        → get (recover (some "r") (λ n. 9) crashed).1.records k ≡ some r)
unfolding get
recover_marks_example = recover_marks (some "r") (λ n. 9) crashed (refl, refl, (refl, refl, tt))

-- The prepared record, which is older, comes first.
recovered :
    (recover (some "r") (λ n. 9) crashed).0
    ≡ ok (
        record { execution_id = "e1"; action = RecoveryAction.release }
        ∷ record { execution_id = "e2"; action = RecoveryAction.reconcile }
        ∷ [])
unfolding recover get put require_reconciliation legal
recovered = refl
