-- ===== src/Runtime/Runs/Writes.antt =====
-- `submit`, `cancel` and `resume` of `QueueRuntime` (queueing.py): every record that they write is legal.
use matterloop.Base.{
  ◌≡◌, refl, suc, String, List, [], ◌∷◌, Option, none, some, Bool, true, false, All, Bool-cases,
  Option-cases, inl, inr,
}
use matterloop.Base.Dict.{get}
use matterloop.Core.Status.{ResumeMode}
use matterloop.Core.Context.{LoopRequest}
use matterloop.Runtime.Runs.{RunStatus, is_terminal, is_among, RunRecord, Result, ok, err, create}
use matterloop.Runtime.Runs.Update.{
  Environment, Answer, accepted, raised, World, await_others, create_record, update,
}
use matterloop.Runtime.Runs.Legal.{
  IsLegal, IsVersioned, IsSafe, AllLegal, All-log_created, AllLegal-update, AllLegal-after_failure,
  moves,
}
use matterloop.Runtime.Runs.Requests.{Request, apply, run_requests}
use matterloop.Runtime.Runs.Methods.{
  submit_failed, start_job, resume_job, submit_created, start_run, submit, new_record, actual_id,
  cancel_change, waits, ask_producer, cancel_known, cancel_found, cancel, resume_change,
  restore_change, enqueue_resumed, resume_updated, resume_found, resume,
}

module _ (env : Environment) (versioned : IsVersioned env) where
  submit_failed-IsSafe : (text : String) → IsSafe (submit_failed text)
  unfolding is_terminal is_among moves
  submit_failed-IsSafe text RunStatus.queued n y = refl
  submit_failed-IsSafe text _ n y = cc

  cancel-IsSafe : IsSafe cancel_change
  unfolding is_terminal is_among moves
  cancel-IsSafe RunStatus.queued n y = refl
  cancel-IsSafe RunStatus.running n y = refl
  cancel-IsSafe RunStatus.paused n y = refl
  cancel-IsSafe RunStatus.blocked n y = refl
  cancel-IsSafe _ n y = cc

  resume-IsSafe : IsSafe resume_change
  unfolding is_terminal is_among moves
  resume-IsSafe RunStatus.paused n y = refl
  resume-IsSafe RunStatus.blocked n y = refl
  resume-IsSafe _ n y = cc

  restore_moves :
      (s t : RunStatus)
      → waits s ≡ true
      → is_among (RunStatus.queued ∷ []) t ≡ true
      → moves t s ≡ true
  unfolding is_among moves
  restore_moves RunStatus.paused RunStatus.queued w y = refl
  restore_moves RunStatus.blocked RunStatus.queued w y = refl
  restore_moves _ _ w y = cc

  restore-IsSafe : (r : RunRecord) → waits r.status ≡ true → IsSafe (restore_change r)
  restore-IsSafe r w t n y = restore_moves r.status t w y

  AllLegal-start_run :
      (q : LoopRequest) (id : String) (w : World) → AllLegal w → AllLegal (start_run env q id w).1
  unfolding start_run
  AllLegal-start_run q id w a =
      elim (Option-cases (env.enqueue w.step (start_job q id (env.now w.step)))) [
        | inl n ↦ rw (n, start_run) a
        | inr (text, e) ↦
            rw (e, start_run)
              (AllLegal-after_failure env versioned id (submit_failed text)
                (submit_failed-IsSafe text) String text _ a)
      ]

  AllLegal-submit_created :
      (q : LoopRequest) (id : String) (r : Result (Unit {0})) (w : World)
      → AllLegal w
      → AllLegal (submit_created env q id r w).1
  unfolding submit_created
  AllLegal-submit_created q id (ok u) w a = AllLegal-start_run q id w a
  AllLegal-submit_created q id (err e) w a = a

  AllLegal-submit :
      (q : LoopRequest) (run_id : Option String) (fresh : String) (w : World)
      → AllLegal w
      → AllLegal (submit env q run_id fresh w).1
  unfolding submit
  AllLegal-submit q run_id fresh w a =
      let id = actual_id run_id fresh in
      let r = new_record q id (env.now w.step) in
      AllLegal-submit_created q id (create r (await_others env w).repository).0
        (create_record env r w).1
        (All-log_created (create r (await_others env w).repository).0 r w.writes (refl, refl) a)

  AllLegal-cancel_known :
      (id : String) (answer : Answer) (w : World)
      → AllLegal w
      → AllLegal (cancel_known env id answer w).1
  unfolding cancel_known
  AllLegal-cancel_known id (raised text) w a = a
  AllLegal-cancel_known id (accepted false) w a = a
  AllLegal-cancel_known id (accepted true) w a =
      AllLegal-update env versioned id cancel_change cancel-IsSafe w a

  AllLegal-cancel_found :
      (id : String) (o : Option RunRecord) (w : World)
      → AllLegal w
      → AllLegal (cancel_found env id o w).1
  unfolding cancel_found
  AllLegal-cancel_found id none w a = a
  AllLegal-cancel_found id (some r) w a = elim (Bool-cases (is_terminal r.status)) [
    | inl y ↦ rw y a
    | inr n ↦ rw n (elim (Bool-cases (waits r.status)) [
      | inl y ↦ rw (y, ask_producer) (AllLegal-cancel_known id (accepted true) w a)
      | inr u ↦
          rw (u, ask_producer)
            (AllLegal-cancel_known id (env.cancel w.step id) (record w { step = suc w.step }) a)
    ])
  ]

  AllLegal-enqueue_resumed :
      (id : String) (mode : ResumeMode) (r : RunRecord) (w : World)
      → waits r.status ≡ true
      → AllLegal w
      → AllLegal (enqueue_resumed env id mode r w).1
  unfolding enqueue_resumed
  AllLegal-enqueue_resumed id mode r w y a =
      elim (Option-cases (env.enqueue w.step (resume_job id mode (env.now w.step)))) [
        | inl n ↦ rw (n, enqueue_resumed) a
        | inr (text, e) ↦
            rw (e, enqueue_resumed)
              (AllLegal-after_failure env versioned id (restore_change r) (restore-IsSafe r y) Bool
                text _ a)
      ]

  AllLegal-resume_updated :
      (id : String) (mode : ResumeMode) (r : RunRecord) (x : Result Bool) (w : World)
      → waits r.status ≡ true
      → AllLegal w
      → AllLegal (resume_updated env id mode r x w).1
  unfolding resume_updated
  AllLegal-resume_updated id mode r (err e) w y a = a
  AllLegal-resume_updated id mode r (ok false) w y a = a
  AllLegal-resume_updated id mode r (ok true) w y a = AllLegal-enqueue_resumed id mode r w y a

  AllLegal-resume_found :
      (id : String) (mode : ResumeMode) (o : Option RunRecord) (w : World)
      → AllLegal w
      → AllLegal (resume_found env id mode o w).1
  unfolding resume_found
  AllLegal-resume_found id mode none w a = a
  AllLegal-resume_found id mode (some r) w a = elim (Bool-cases (waits r.status)) [
    | inr n ↦ rw n a
    | inl y ↦ rw y (
        AllLegal-resume_updated id mode r (update env id resume_change w).0
          (update env id resume_change w).1 y
          (AllLegal-update env versioned id resume_change resume-IsSafe w a))
  ]

  AllLegal-cancel : (id : String) (w : World) → AllLegal w → AllLegal (cancel env id w).1
  unfolding cancel
  AllLegal-cancel id w a =
      AllLegal-cancel_found id (get (await_others env w).repository id) (await_others env w) a

  AllLegal-resume :
      (id : String) (mode : ResumeMode) (w : World) → AllLegal w → AllLegal (resume env id mode w).1
  unfolding resume
  AllLegal-resume id mode w a =
      AllLegal-resume_found id mode (get (await_others env w).repository id) (await_others env w) a

  AllLegal-apply : (q : Request) (w : World) → AllLegal w → AllLegal (apply env q w)
  unfolding apply
  AllLegal-apply (Request.submit q run_id fresh) w a = AllLegal-submit q run_id fresh w a
  AllLegal-apply (Request.cancel id) w a = AllLegal-cancel id w a
  AllLegal-apply (Request.resume id mode) w a = AllLegal-resume id mode w a

  AllLegal-run : (qs : List Request) (w : World) → AllLegal w → AllLegal (run_requests env qs w)
  unfolding run_requests
  AllLegal-run [] w a = a
  AllLegal-run (q ∷ qs) w a = AllLegal-run qs (apply env q w) (AllLegal-apply q w a)

-- Whatever the producer and the other writers do, as long as a writer that changes a record gives it
-- another version: every record that a sequence of `submit`, `cancel` and `resume` writes is either
-- new, queued and of version 0, or the next version of the record that it replaces, for the same run
-- and request, by a move of the table, and so never in place of a terminal one.
pub run-IsLegal :
    (env : Environment) (qs : List Request) (w : World)
    → IsVersioned env
    → w.writes ≡ []
    → All IsLegal (run_requests env qs w).writes
run-IsLegal env qs w v e = AllLegal-run env v qs w (rw e tt)
