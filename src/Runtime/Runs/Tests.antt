-- ===== src/Runtime/Runs/Tests.antt =====
-- The queue runtime at concrete runs.
use matterloop.Base.{◌≡◌, refl, ℕ, List, [], ◌∷◌, some, none, true, false, All, if◌then◌else◌}
use matterloop.Base.Dict.{get}
use matterloop.Core.Status.{ResumeMode}
use matterloop.Core.Context.{LoopRequest, same_request}
use matterloop.Runtime.Runs.{
  RunStatus, is_terminal, is_among, RunRecord, ok, err, request_conflict, producer_error,
}
use matterloop.Runtime.Runs.Update.{Environment, accepted, World}
use matterloop.Runtime.Runs.Methods.{submit, cancel, resume}
use matterloop.Runtime.Runs.Requests.{Request, run_requests}
use matterloop.Runtime.Runs.Legal.{IsLegal}
use matterloop.Runtime.Runs.Writes.{run-IsLegal}
use matterloop.Runtime.Runs.Outcomes.{cancelled_version, cancel_accepted}
use matterloop.Runtime.Runs.Quiet.{Restored, resume_restores}
use matterloop.Runtime.Runs.Again.{submit_again}

abbrev request : LoopRequest
request = record {
  goal = "answer";
  acceptance_criteria = [];
  limits = record {
    max_cycles = 2;
    max_attempts = 3;
    max_steps_per_plan = 4;
    timeout_seconds = none;
  };
  metadata = [];
}

abbrev failing : Environment
failing = record {
  others = λ n d. d;
  now = λ n. n;
  enqueue = λ n job. some "RuntimeError: no broker";
  cancel = λ n id. accepted true;
}

abbrev working : Environment
working = record failing { enqueue = λ n job. none }

abbrev empty_world : World
empty_world = record { repository = []; step = 0; writes = []; sent = [] }

abbrev paused_record : RunRecord
paused_record = record {
  run_id = "r1";
  request = request;
  status = RunStatus.paused;
  version = 3;
  result = none;
  error = "waits";
  created_at = 0;
  updated_at = 5;
}

abbrev paused_world : World
paused_world = record empty_world { repository = ("r1", paused_record) ∷ [] }

-- A submission, its cancellation, and one that the producer refuses.
abbrev requests : List Request
requests =
    Request.submit request (some "r1") "f1"
    ∷ Request.cancel "r1"
    ∷ Request.resume "r1" ResumeMode.continue
    ∷ []

run-IsLegal_example : All IsLegal (run_requests failing requests empty_world).writes
run-IsLegal_example =
    run-IsLegal failing requests empty_world (λ n d id r r' found found' same. cc) refl

cancel_accepted_example :
    (b : RunRecord) × (now : ℕ) × ((cancel working "r1" paused_world).1.writes
      ≡ record { before = some b; after = cancelled_version now b } ∷ [])
    × (get (cancel working "r1" paused_world).1.repository "r1" ≡ some (cancelled_version now b))
    × (b.run_id ≡ "r1")
    × (is_terminal b.status ≡ false)
unfolding cancel get is_terminal is_among
cancel_accepted_example =
    cancel_accepted working "r1" paused_world (λ n d id r r' found found' same. cc) refl

resume_restores_example :
    ((resume failing "r1" ResumeMode.replan paused_world).0
      ≡ err (producer_error "RuntimeError: no broker"))
    × Restored paused_record
        (get (resume failing "r1" ResumeMode.replan paused_world).1.repository "r1")
unfolding get is_among
resume_restores_example =
    resume_restores failing "r1" ResumeMode.replan paused_record paused_world
      "RuntimeError: no broker" (λ n d. refl) refl refl refl (λ n job. refl)

submit_again_example :
    ((submit working request (some "r1") "f1" paused_world).0
      ≡ (if same_request request request then ok "r1" else err (request_conflict "r1")))
    × ((submit working request (some "r1") "f1" paused_world).1.sent ≡ [])
    × ((submit working request (some "r1") "f1" paused_world).1.writes ≡ [])
unfolding get
submit_again_example =
    submit_again working request "r1" "f1" paused_record paused_world
      (λ n d id r found. (r, found, refl)) refl refl
