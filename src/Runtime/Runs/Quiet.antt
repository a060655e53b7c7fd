-- ===== src/Runtime/Runs/Quiet.antt =====
-- `QueueRuntime` (queueing.py) where no other writer interferes.
use matterloop.Base.{
  ◌≡◌, refl, ℕ, suc, String, [], ◌∷◌, Option, none, some, Bool, true, false, ◌==◌, arith, eqb,
  eq_iff, eq_self, ap, ◌∙◌,
}
use matterloop.Base.Dict.{get, put, get-put}
use matterloop.Core.Status.{ResumeMode}
use matterloop.Runtime.Queue.{QueuedRun}
use matterloop.Runtime.Runs.{
  RunStatus, is_terminal, is_among, RunRecord, Result, ok, err, Repository, compare_and_set,
  set_version, producer_error,
}
use matterloop.Runtime.Runs.Update.{
  Environment, World, Change, is_expected, replacement, await_others, read, replace_record,
  try_update, round_result, update_round, decide, update_rounds, update, send, after_failure,
  failure_result,
}
use matterloop.Runtime.Runs.Methods.{
  waits, resume_job, resume_change, restore_change, enqueue_resumed, resume_updated, resume_found,
  resume,
}

abbrev pub IsQuiet : Environment → Type 0
IsQuiet env = (n : ℕ) (d : Repository) → env.others n d ≡ d

-- The world after a change that goes through at the first round.
abbrev changed : Environment → String → Change → RunRecord → World → World
changed env id c r w =
    let next = replacement c (env.now (suc w.step)) r in
    record w {
      repository = put w.repository id next;
      step = suc (suc w.step);
      writes = record { before = some r; after = next } ∷ w.writes;
    }

get-put_self : (d : Repository) (k : String) (r : RunRecord) → get (put d k r) k ≡ some r
get-put_self d k r = rw (get-put, eq_self) refl

waits_alive : (s : RunStatus) → waits s ≡ true → is_terminal s ≡ false
unfolding is_among is_terminal
waits_alive RunStatus.paused h = refl
waits_alive RunStatus.blocked h = refl
waits_alive _ h = cc

queued_alive :
    (now : ℕ) (r : RunRecord) → is_terminal (replacement resume_change now r).status ≡ false
unfolding replacement is_terminal
queued_alive now r = refl

queued_expected :
    (now : ℕ) (r : RunRecord)
    → is_among (RunStatus.queued ∷ []) (replacement resume_change now r).status ≡ true
unfolding replacement is_among
queued_expected now r = refl

module _ (env : Environment) (quiet : IsQuiet env) (id : String) (r : RunRecord) (w : World)
    (here : get w.repository id ≡ some r) where
  read_quiet : read env id w ≡ (some r, record w { step = suc w.step })
  unfolding read await_others
  read_quiet = rw (quiet w.step w.repository, here) refl

  module _ (own : r.run_id ≡ id) where
    replace_quiet :
        (next : RunRecord)
        → next.run_id ≡ r.run_id
        → next.version ≡ suc r.version
        → replace_record env id r.version next w ≡ (
          ok true,
          record w {
            repository = put w.repository id next;
            step = suc w.step;
            writes = record { before = some r; after = next } ∷ w.writes;
          },
        )
    unfolding replace_record await_others compare_and_set set_version
    replace_quiet next same grows =
        let mine : (next.run_id == id) ≡ true = (eq_iff next.run_id id).1 (same ∙ own) in
        let current : eqb r.version r.version ≡ true = ground arith in
        let higher : eqb next.version (suc r.version) ≡ true = ground (arith, grows) in
        rw (quiet w.step w.repository, here, mine, current, higher) refl

module _ (c : Change) (now : ℕ) (r : RunRecord) where
  same_id : (replacement c now r).run_id ≡ r.run_id
  unfolding replacement
  same_id = refl

  grows : (replacement c now r).version ≡ suc r.version
  unfolding replacement
  grows = refl

module _ (env : Environment) (quiet : IsQuiet env) (id : String) (c : Change) (r : RunRecord)
    (w : World) (here : get w.repository id ≡ some r) (own : r.run_id ≡ id)
    (alive : is_terminal r.status ≡ false) (expected : is_expected c.expected r.status ≡ true) where
  try_quiet :
      try_update env id c (some r) (record w { step = suc w.step })
      ≡ (ok (some true), changed env id c r w)
  unfolding try_update round_result
  try_quiet =
      let next = replacement c (env.now (suc w.step)) r in
      rw (alive, expected)
        (ap (λ (x : Result Bool × World). (round_result x.0, x.1))
          (replace_quiet env quiet id r (record w { step = suc w.step }) here own next
            (same_id c (env.now (suc w.step)) r) (grows c (env.now (suc w.step)) r)))

  round_quiet : update_round env id c w ≡ (ok (some true), changed env id c r w)
  unfolding update_round
  round_quiet =
      ap (λ (x : Option RunRecord × World). try_update env id c x.0 x.1)
        (read_quiet env quiet id r w here)
      ∙ try_quiet

  update_quiet : update env id c w ≡ (ok true, changed env id c r w)
  unfolding update update_rounds decide
  update_quiet =
      ap (λ (x : Result (Option Bool) × World). decide x (update_rounds env 15 id c)) round_quiet

-- The record that is put back has everything of the first but its version and time.
abbrev pub Restored : RunRecord → Option RunRecord → Type 0
Restored r none = ⊥
Restored r (some s) =
    (s.run_id ≡ r.run_id)
    × (s.request ≡ r.request)
    × (s.status ≡ r.status)
    × (s.result ≡ r.result)
    × (s.error ≡ r.error)
    × (s.version ≡ suc (suc r.version))

module _ (env : Environment) (quiet : IsQuiet env) (id : String) (mode : ResumeMode) (r : RunRecord)
    (w : World) (text : String) (here : get w.repository id ≡ some r) (own : r.run_id ≡ id)
    (waiting : waits r.status ≡ true)
    (fails : (n : ℕ) (job : QueuedRun) → env.enqueue n job ≡ some text) where
  abbrev first : World
  first = changed env id resume_change r (record w { step = suc w.step })

  abbrev second : World
  second = record first {
    step = suc first.step;
    sent = resume_job id mode (env.now first.step) ∷ first.sent;
  }

  abbrev queued_record : RunRecord
  queued_record = replacement resume_change (env.now (suc (suc w.step))) r

  abbrev third : World
  third = changed env id (restore_change r) queued_record second

  restores :
      after_failure env {A = Bool} id (restore_change r) text second
      ≡ (err (producer_error text), third)
  unfolding after_failure
  restores =
      ap (λ (x : Result Bool × World). (failure_result {A = Bool} text x.0, x.1))
        (update_quiet env quiet id (restore_change r) queued_record second
          (get-put_self w.repository id queued_record)
          (same_id resume_change (env.now (suc (suc w.step))) r ∙ own)
          (queued_alive (env.now (suc (suc w.step))) r)
          (queued_expected (env.now (suc (suc w.step))) r))

  enqueue_fails : enqueue_resumed env id mode r first ≡ (err (producer_error text), third)
  unfolding enqueue_resumed send
  enqueue_fails =
      rw (fails first.step (resume_job id mode (env.now first.step)), enqueue_resumed) restores

  found_fails :
      resume_found env id mode (some r) (record w { step = suc w.step })
      ≡ (err (producer_error text), third)
  unfolding resume_found resume_updated
  found_fails = rw waiting (
      ap (λ (x : Result Bool × World). resume_updated env id mode r x.0 x.1)
        (update_quiet env quiet id resume_change r (record w { step = suc w.step }) here own
          (waits_alive r.status waiting) waiting)
      ∙ enqueue_fails)

  resume_quiet : resume env id mode w ≡ (err (producer_error text), third)
  unfolding resume
  resume_quiet =
      ap (λ (x : Option RunRecord × World). resume_found env id mode x.0 x.1)
        (read_quiet env quiet id r w here)
      ∙ found_fails

  restored : Restored r (get third.repository id)
  unfolding replacement
  restored = rw (get-put_self first.repository id _) (refl, refl, refl, refl, refl, refl)

-- Where no other writer interferes and the producer raises at every command: `resume` of a paused or
-- blocked run raises the producer's exception, and the repository then has the record with its
-- request, status, result and error from before, two versions later.
pub resume_restores :
    (env : Environment) (id : String) (mode : ResumeMode) (r : RunRecord) (w : World)
    (text : String)
    → IsQuiet env
    → get w.repository id ≡ some r
    → r.run_id ≡ id
    → is_among (RunStatus.paused ∷ RunStatus.blocked ∷ []) r.status ≡ true
    → ((n : ℕ) (job : QueuedRun) → env.enqueue n job ≡ some text)
    → ((resume env id mode w).0 ≡ err (producer_error text))
      × Restored r (get (resume env id mode w).1.repository id)
resume_restores env id mode r w text quiet here own waiting fails =
    rw (resume_quiet env quiet id mode r w text here own waiting fails)
      (refl, restored env quiet id mode r w text here own waiting fails)
