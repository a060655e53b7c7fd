-- ===== src/Runtime/Queue.antt =====
-- matterloop-runtime/src/python/matterloop_runtime/queueing.py: the commands and leases of the queue,
-- and `InMemoryQueueBackend`. Each method runs under the backend's lock, so a method is one step.
-- Times are microseconds since the first day of year 1, on the native ℕ. A sum of a time and a span
-- that lies after `datetime.max` raises `OverflowError`, at the place where the code computes it. The heap of pending jobs, of which the code reads the least
-- entry only, is the list in its order. A fresh lease identifier (`uuid4().hex`) is an argument.
-- The checks in the constructors of `QueuedRun` and `QueueLease` are not modelled: commands come
-- checked, `lease` has tested the worker, and attempts count from 1.
pub mod Counts
pub mod Reclaim
pub mod Calls
pub mod Places
pub mod Exclusive
pub mod Present
pub mod Stopped
pub mod Cancelled
pub mod Stale
pub mod Dropped
mod Tests
use matterloop.Base.{
  ℕ, ◌+◌, ◌≤◌, suc, String, List, [], ◌∷◌, Option, none, some, Bool, true, false, not, ◌&&◌, ◌||◌,
  ◌==◌, ltb, leb, eqb, if◌then◌else◌, elem, keep, length,
}
use matterloop.Base.Dict.{Dict, get, put, remove, values}
use matterloop.Base.Set.{add, discard}
use matterloop.Base.Int.{ℤ, pos, negsuc}
use matterloop.Core.Status.{ResumeMode}
use matterloop.Core.Context.{LoopRequest, same_request}

pub data QueueAction : Type 0 where
  start resume : QueueAction

pub record QueuedRun : Type 0 where
  pub run_id : String
  pub action : QueueAction
  pub request : Option LoopRequest
  pub resume_mode : ResumeMode
  pub enqueued_at : ℕ

pub record QueueLease : Type 0 where
  pub lease_id : String
  pub job : QueuedRun
  pub worker_id : String
  pub expires_at : ℕ
  pub attempt : ℕ

-- `current != lease` compares every field.
unfoldable same_action : QueueAction → QueueAction → Bool
same_action QueueAction.start QueueAction.start = true
same_action QueueAction.resume QueueAction.resume = true
same_action _ _ = false

unfoldable same_mode : ResumeMode → ResumeMode → Bool
same_mode ResumeMode.continue ResumeMode.continue = true
same_mode ResumeMode.replan ResumeMode.replan = true
same_mode _ _ = false

unfoldable optional_request : Option LoopRequest → Option LoopRequest → Bool
optional_request none none = true
optional_request (some a) (some b) = same_request a b
optional_request _ _ = false

unfoldable same_run : QueuedRun → QueuedRun → Bool
unfolding same_action same_mode optional_request
same_run a b =
    a.run_id == b.run_id
    && same_action a.action b.action
    && optional_request a.request b.request
    && same_mode a.resume_mode b.resume_mode
    && eqb a.enqueued_at b.enqueued_at

unfoldable same_lease : QueueLease → QueueLease → Bool
unfolding same_run
same_lease a b =
    a.lease_id == b.lease_id
    && same_run a.job b.job
    && a.worker_id == b.worker_id
    && eqb a.expires_at b.expires_at
    && eqb a.attempt b.attempt

pub record PendingJob : Type 0 where
  pub available_at : ℕ
  pub sequence : ℕ
  pub job : QueuedRun
  pub attempt : ℕ

pub record Backend : Type 0 where
  pub pending : List PendingJob
  pub pending_sequence : ℕ
  pub leased : Dict QueueLease
  pub known_runs : List String
  pub cancelled_runs : List String

abbrev pub empty : Backend
empty = record {
  pending = [];
  pending_sequence = 0;
  leased = [];
  known_runs = [];
  cancelled_runs = [];
}

pub data QueueError : Type 0 where
  value_error overflow : QueueError
  duplicate_run lease_lost : String → QueueError

pub data Result (A : Type 0) : Type 0 where
  ok : A → Result A
  err : QueueError → Result A

abbrev pub Method : Type 0 → Type 0
Method A = Backend → Result A × Backend

-- A number of seconds, in microseconds; a float may be infinite or no number.
pub data Seconds : Type 0 where
  finite : ℤ → Seconds
  not_finite : Seconds

-- `_validate_finite_seconds`, which gives the accepted span.
unfoldable pub validate_finite_seconds : Seconds → (positive : Bool) → Option ℕ
validate_finite_seconds not_finite positive = none
validate_finite_seconds (finite (negsuc n)) positive = none
validate_finite_seconds (finite (pos n)) positive = if positive && eqb n 0 then none else some n

-- `datetime.max`
abbrev pub max_time : ℕ
max_time = 315537897599999999

-- `now + timedelta(seconds=...)`
unfoldable pub add_span : ℕ → ℕ → Option ℕ
add_span now span = if leb (now + span) max_time then some (now + span) else none

-- The order of `_PendingJob`.
unfoldable before : PendingJob → PendingJob → Bool
before p q =
    ltb p.available_at q.available_at
    || eqb p.available_at q.available_at && ltb p.sequence q.sequence

unfoldable pub heappush : PendingJob → List PendingJob → List PendingJob
unfolding before
heappush p [] = p ∷ []
heappush p (q ∷ ps) = let rest = heappush p ps in if before p q then p ∷ (q ∷ ps) else q ∷ rest

-- `_push_pending`
unfoldable push_pending : QueuedRun → ℕ → ℕ → Backend → Backend
push_pending job available_at attempt b = record b {
  pending =
      heappush
        (record {
          available_at = available_at;
          sequence = b.pending_sequence;
          job = job;
          attempt = attempt;
        })
        b.pending;
  pending_sequence = suc b.pending_sequence;
}

-- `_reclaim_expired`: one lease, and all that have expired.
unfoldable drop_lease : QueueLease → Backend → Backend
drop_lease l b = record b { leased = remove b.leased l.lease_id }

unfoldable forget_run : String → Backend → Backend
forget_run id b = record b {
  known_runs = discard id b.known_runs;
  cancelled_runs = discard id b.cancelled_runs;
}

unfoldable reclaim_one : ℕ → QueueLease → Backend → Backend
unfolding drop_lease forget_run push_pending
reclaim_one now l b =
    if elem l.job.run_id b.cancelled_runs
    then forget_run l.job.run_id (drop_lease l b)
    else push_pending l.job now (suc l.attempt) (drop_lease l b)

unfoldable reclaim_all : ℕ → List QueueLease → Backend → Backend
unfolding reclaim_one
reclaim_all now [] b = b
reclaim_all now (l ∷ ls) b = reclaim_all now ls (reclaim_one now l b)

abbrev has_expired : ℕ → QueueLease → Bool
has_expired now l = leb l.expires_at now

unfoldable reclaim_expired : ℕ → Backend → Backend
unfolding reclaim_all
reclaim_expired now b = reclaim_all now (keep (has_expired now) (values b.leased)) b

-- `enqueue`
unfoldable pub enqueue : QueuedRun → ℕ → Method (Unit {0})
unfolding push_pending
enqueue job now b =
    if elem job.run_id b.known_runs
    then (err (duplicate_run job.run_id), b)
    else (ok tt, push_pending job now 1 (record b { known_runs = add job.run_id b.known_runs }))

-- The loop of `lease`: the job that is taken, and the backend without it and without the jobs of
-- cancelled runs before it.
unfoldable take_pending : ℕ → List PendingJob → Backend → Option PendingJob × Backend
take_pending now [] b = (none, record b { pending = [] })
take_pending now (p ∷ ps) b =
    let rest = take_pending now ps (record b { known_runs = discard p.job.run_id b.known_runs }) in
    if ltb now p.available_at
    then (none, record b { pending = p ∷ ps })
    else (if elem p.job.run_id b.cancelled_runs then rest else (some p, record b { pending = ps }))

unfoldable grant_lease :
    String → String → Option ℕ → Option PendingJob × Backend → Result (Option QueueLease) × Backend
grant_lease fresh worker expires_at (none, b) = (ok none, b)
grant_lease fresh worker none (some p, b) = (err overflow, b)
grant_lease fresh worker (some expires_at) (some p, b) =
    let lease : QueueLease = record {
      lease_id = fresh;
      job = p.job;
      worker_id = worker;
      expires_at = expires_at;
      attempt = p.attempt;
    } in
    (ok (some lease), record b { leased = put b.leased fresh lease })

abbrev default_seconds : Option Seconds → Seconds
default_seconds none = finite (pos 30000000)
default_seconds (some s) = s

unfoldable lease_for : String → String → Option ℕ → ℕ → Method (Option QueueLease)
unfolding reclaim_expired take_pending grant_lease add_span
lease_for fresh worker none now b = (err value_error, b)
lease_for fresh worker (some span) now b =
    let reclaimed = reclaim_expired now b in
    grant_lease fresh worker (add_span now span) (take_pending now reclaimed.pending reclaimed)

-- `lease`
unfoldable pub lease : String → String → Option Seconds → ℕ → Method (Option QueueLease)
unfolding lease_for validate_finite_seconds
lease fresh worker seconds now b =
    if worker == ""
    then (err value_error, b)
    else lease_for fresh worker (validate_finite_seconds (default_seconds seconds) true) now b

-- `self._leased.get(lease.lease_id) == lease`
unfoldable is_current : QueueLease → Backend → Bool
unfolding same_lease
is_current l b = elim (get b.leased l.lease_id) [
  | none ↦ false
  | some current ↦ same_lease current l
]

-- `acknowledge`
unfoldable pub acknowledge : QueueLease → ℕ → Method (Unit {0})
unfolding reclaim_expired is_current forget_run drop_lease
acknowledge l now b =
    let reclaimed = reclaim_expired now b in
    if is_current l reclaimed
    then (ok tt, forget_run l.job.run_id (drop_lease l reclaimed))
    else (ok tt, reclaimed)

-- A lease that its holder gives back: where the time at which it is to be available overflows, the
-- lease has been deleted before the error is raised.
unfoldable push_back : QueueLease → Option ℕ → Method (Unit {0})
unfolding drop_lease push_pending
push_back l none b = (err overflow, drop_lease l b)
push_back l (some available_at) b =
    (ok tt, push_pending l.job available_at (suc l.attempt) (drop_lease l b))

unfoldable give_back : QueueLease → Option ℕ → Method (Unit {0})
unfolding drop_lease push_back
give_back l available_at b =
    if elem l.job.run_id b.cancelled_runs
    then (ok tt, record (drop_lease l b) { known_runs = discard l.job.run_id b.known_runs })
    else push_back l available_at b

-- `release`: the second reading of the clock is `later`.
unfoldable pub release : QueueLease → Seconds → (now later : ℕ) → Method (Unit {0})
unfolding reclaim_expired is_current give_back validate_finite_seconds add_span
release l delay now later b = elim (validate_finite_seconds delay false) [
  | none ↦ (err value_error, b)
  | some span ↦
      let reclaimed = reclaim_expired now b in
      if is_current l reclaimed
      then give_back l (add_span later span) reclaimed
      else (ok tt, reclaimed)
]

-- The renewed lease is written once its time has been computed.
unfoldable extend_until : String → QueueLease → Option ℕ → Method QueueLease
extend_until id current none b = (err overflow, b)
extend_until id current (some expires_at) b =
    let renewed : QueueLease = record current { expires_at = expires_at } in
    (ok renewed, record b { leased = put b.leased id renewed })

unfoldable extend : QueueLease → Option ℕ → Option QueueLease → Method QueueLease
unfolding same_lease extend_until
extend l expires_at none b = (err (lease_lost l.lease_id), b)
extend l expires_at (some current) b =
    if same_lease current l
    then extend_until l.lease_id current expires_at b
    else (err (lease_lost l.lease_id), b)

-- `renew`
unfoldable pub renew : QueueLease → Seconds → ℕ → Method QueueLease
unfolding reclaim_expired extend validate_finite_seconds add_span
renew l seconds now b = elim (validate_finite_seconds seconds true) [
  | none ↦ (err value_error, b)
  | some span ↦
      let reclaimed = reclaim_expired now b in
      extend l (add_span now span) (get reclaimed.leased l.lease_id) reclaimed
]

unfoldable other_runs : String → List PendingJob → List PendingJob
other_runs id [] = []
other_runs id (p ∷ ps) =
    let rest = other_runs id ps in if p.job.run_id == id then rest else p ∷ rest

-- `cancel`
unfoldable pub cancel : String → Method Bool
unfolding other_runs forget_run
cancel id b =
    let retained = other_runs id b.pending in
    let marked = record b { cancelled_runs = add id b.cancelled_runs } in
    if not (elem id b.known_runs)
    then (ok false, b)
    else (if eqb (length retained) (length b.pending)
        then (ok true, marked)
        else (ok true, forget_run id (record marked { pending = retained })))
