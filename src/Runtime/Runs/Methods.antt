-- ===== src/Runtime/Runs/Methods.antt =====
-- `submit`, `cancel` and `resume` of `QueueRuntime` (queueing.py).
use matterloop.Base.{
  ℕ, suc, String, [], ◌∷◌, Option, none, some, Bool, true, false, ◌==◌, if◌then◌else◌,
}
use matterloop.Core.Status.{ResumeMode}
use matterloop.Core.Context.{LoopRequest, same_request}
use matterloop.Runtime.Queue.{QueueAction, QueuedRun}
use matterloop.Runtime.Runs.{
  RunStatus, is_terminal, is_among, RunRecord, not_found, not_resumable, request_conflict,
  producer_error, Result, ok, err,
}
use matterloop.Runtime.Runs.Update.{
  Environment, Answer, accepted, raised, World, Action, Change, read, create_record, update, send,
  after_failure,
}

abbrev pub submit_failed : String → Change
submit_failed text = record {
  status = RunStatus.failed;
  result = none;
  error = text;
  expected = some (RunStatus.queued ∷ []);
}

-- `submit` of a run that is there.
unfoldable pub submit_known : LoopRequest → String → Option RunRecord → Result String
submit_known q id none = err (request_conflict id)
submit_known q id (some existing) =
    if same_request existing.request q then ok id else err (request_conflict id)

abbrev pub new_record : LoopRequest → String → ℕ → RunRecord
new_record q id now = record {
  run_id = id;
  request = q;
  status = RunStatus.queued;
  version = 0;
  result = none;
  error = "";
  created_at = now;
  updated_at = now;
}

-- `run_id or uuid4().hex`
abbrev pub actual_id : Option String → String → String
actual_id none fresh = fresh
actual_id (some id) fresh = if id == "" then fresh else id

abbrev pub cancel_change : Change
cancel_change = record {
  status = RunStatus.cancelled;
  result = none;
  error = "";
  expected =
      some (RunStatus.queued ∷ RunStatus.running ∷ RunStatus.paused ∷ RunStatus.blocked ∷ []);
}

abbrev pub waits : RunStatus → Bool
waits s = is_among (RunStatus.paused ∷ RunStatus.blocked ∷ []) s

abbrev pub resume_change : Change
resume_change = record {
  status = RunStatus.queued;
  result = none;
  error = "";
  expected = some (RunStatus.paused ∷ RunStatus.blocked ∷ []);
}

abbrev pub restore_change : RunRecord → Change
restore_change r = record {
  status = r.status;
  result = r.result;
  error = r.error;
  expected = some (RunStatus.queued ∷ []);
}

abbrev pub start_job : LoopRequest → String → ℕ → QueuedRun
start_job q id now = record {
  run_id = id;
  action = QueueAction.start;
  request = some q;
  resume_mode = ResumeMode.continue;
  enqueued_at = now;
}

abbrev pub resume_job : String → ResumeMode → ℕ → QueuedRun
resume_job id mode now = record {
  run_id = id;
  action = QueueAction.resume;
  request = none;
  resume_mode = mode;
  enqueued_at = now;
}

module _ (env : Environment) where
  unfoldable pub start_run : LoopRequest → String → Action String
  unfolding send after_failure
  start_run q id w =
      let (failure, w') = send env (start_job q id (env.now w.step)) w in
      elim failure [
        | none ↦ (ok id, w')
        | some text ↦ after_failure env id (submit_failed text) text w'
      ]

  unfoldable pub submit_created : LoopRequest → String → Result (Unit {0}) → Action String
  unfolding read submit_known start_run
  submit_created q id (ok u) w = start_run q id w
  submit_created q id (err e) w =
      let (existing, w') = read env id w in (submit_known q id existing, w')

  -- `submit`
  unfoldable pub submit : LoopRequest → Option String → (fresh : String) → Action String
  unfolding create_record submit_created
  submit q run_id fresh w =
      let id = actual_id run_id fresh in
      let (created, w') = create_record env (new_record q id (env.now w.step)) w in
      submit_created q id created w'

  unfoldable pub ask_producer : RunStatus → String → World → Answer × World
  ask_producer s id w =
      if waits s then (accepted true, w) else (env.cancel w.step id, record w { step = suc w.step })

  unfoldable pub cancel_known : String → Answer → Action Bool
  unfolding update
  cancel_known id (raised text) w = (err (producer_error text), w)
  cancel_known id (accepted false) w = (ok false, w)
  cancel_known id (accepted true) w = update env id cancel_change w

  unfoldable pub cancel_found : String → Option RunRecord → Action Bool
  unfolding ask_producer cancel_known
  cancel_found id none w = (ok false, w)
  cancel_found id (some r) w =
      if is_terminal r.status
      then (ok false, w)
      else (let (answer, w') = ask_producer r.status id w in cancel_known id answer w')

  -- `cancel`
  unfoldable pub cancel : String → Action Bool
  unfolding read cancel_found
  cancel id w = let (r, w') = read env id w in cancel_found id r w'

  unfoldable pub enqueue_resumed : String → ResumeMode → RunRecord → Action Bool
  unfolding send after_failure
  enqueue_resumed id mode r w =
      let (failure, w') = send env (resume_job id mode (env.now w.step)) w in
      elim failure [
        | none ↦ (ok true, w')
        | some text ↦ after_failure env id (restore_change r) text w'
      ]

  unfoldable pub resume_updated : String → ResumeMode → RunRecord → Result Bool → Action Bool
  unfolding enqueue_resumed
  resume_updated id mode r (err e) w = (err e, w)
  resume_updated id mode r (ok false) w = (ok false, w)
  resume_updated id mode r (ok true) w = enqueue_resumed id mode r w

  unfoldable pub resume_found : String → ResumeMode → Option RunRecord → Action Bool
  unfolding update resume_updated
  resume_found id mode none w = (err (not_found id), w)
  resume_found id mode (some r) w =
      if waits r.status
      then (let (updated, w') = update env id resume_change w in
          resume_updated id mode r updated w')
      else (err (not_resumable r.status), w)

  -- `resume`
  unfoldable pub resume : String → ResumeMode → Action Bool
  unfolding read resume_found
  resume id mode w = let (r, w') = read env id w in resume_found id mode r w'
