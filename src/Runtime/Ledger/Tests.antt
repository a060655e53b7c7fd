-- ===== src/Runtime/Ledger/Tests.antt =====
-- The theorems on the ledger at one concrete sequence of calls.
use matterloop.Base.{◌≡◌, refl, String, List, [], ◌∷◌, none, some}
use matterloop.Base.Dict.{get, put}
use matterloop.Runtime.Ledger.{ExecutionStatus, ExecutionRecord, Ledger, empty, legal, prepare}
use matterloop.Runtime.Ledger.Laws.{
  Action, prepare_it, start_it, commit_it, fail_it, reconcile_it, run, IsConsistent,
  IsConsistent-empty, IsConsistent-run, step,
}
use matterloop.Runtime.Ledger.Life.{final_is_kept}

abbrev candidate : String → String → ExecutionRecord
candidate id hash = record {
  execution_id = id;
  run_id = "r";
  request_hash = hash;
  task_id = none;
  agent_id = none;
  tool_id = none;
  status = ExecutionStatus.prepared;
  result_payload = none;
  error = "";
  created_at = 0;
  updated_at = 0;
  attempt = 1;
}

abbrev calls : List Action
calls =
    prepare_it (candidate "e1" "h1")
    ∷ start_it "e1" 1
    ∷ commit_it "e1" "{}" 2
    ∷ prepare_it (candidate "e2" "h1")
    ∷ fail_it "e1" "late" 3
    ∷ []

abbrev done : ExecutionRecord
done = record (candidate "e1" "h1") {
  status = ExecutionStatus.committed;
  result_payload = some "{}";
  updated_at = 2;
}

abbrev ledger : Ledger
ledger = run calls empty

IsConsistent-run_example : IsConsistent ledger
IsConsistent-run_example = IsConsistent-run calls empty IsConsistent-empty

abbrev attempts : List Action
attempts = fail_it "e1" "late" 3 ∷ reconcile_it "e1" 4 ∷ prepare_it (candidate "e1" "h2") ∷ []

final_is_kept_example : get (run attempts ledger).records "e1" ≡ some done
unfolding run get step prepare put legal
final_is_kept_example = final_is_kept attempts ledger "e1" done refl refl
