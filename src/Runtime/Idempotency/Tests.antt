-- ===== src/Runtime/Idempotency/Tests.antt =====
-- A result is returned again: the theorem at one concrete pair of calls.
use matterloop.Base.{◌≡◌, refl, String, List, [], ◌∷◌, none}
use matterloop.Base.Dict.{get, put}
use matterloop.Runtime.Ledger.{
  ExecutionStatus, ExecutionRecord, empty, prepare, mark_executing, commit, legal,
}
use matterloop.Runtime.Ledger.Laws.{Action, fail_it, run, step, IsConsistent-empty}
use matterloop.Runtime.Idempotency.{
  success, failure, result, Invoker, invoke, on_prepared, execute_prepared, call_executor, settle,
}
use matterloop.Runtime.Idempotency.Cached.{invoke_again}

abbrev candidate : String → ExecutionRecord
candidate id = record {
  execution_id = id;
  run_id = "r";
  request_hash = "h1";
  task_id = none;
  agent_id = none;
  tool_id = none;
  status = ExecutionStatus.prepared;
  result_payload = none;
  error = "";
  created_at = 0;
  updated_at = 0;
  attempt = 1;
}

abbrev fresh : Invoker
fresh = record { ledger = empty; runs = [] }

abbrev after : Invoker
after = (invoke (candidate "e1") (success "{}") 1 2 fresh).1

abbrev late : List Action
late = fail_it "e1" "late" 3 ∷ []

invoke_again_example :
    invoke
      (candidate "e2")
      (failure "down")
      4
      5
      (record { ledger = run late after.ledger; runs = after.runs })
    ≡ (result "{}", record { ledger = run late after.ledger; runs = after.runs })
unfolding run get invoke on_prepared prepare execute_prepared call_executor mark_executing put legal
    settle commit step
invoke_again_example =
    invoke_again fresh (candidate "e1") (candidate "e2") (success "{}") (failure "down") 1 2 4 5
      "{}" late after.runs IsConsistent-empty refl refl refl
