-- ===== src/Runtime/Runs.antt =====
-- matterloop-runtime/src/python/matterloop_runtime/queueing.py: `RunRecord`,
-- `InMemoryRunRepository` and `QueueRuntime`. Every call of the repository is awaited, so other writers
-- may act before it: they are a function of the number of the call. The producer (`QueueProducer`) is
-- outside too. The world keeps two logs that the code does not have: what the runtime has written to
-- the repository, and the commands that it has sent. The checks of `RunRecord.__post_init__` are not
-- modelled: the runtime makes a record of an identifier that is not empty, and replaces a result only
-- by none or by one that the record had.
pub mod Update
pub mod Methods
pub mod Requests
pub mod Legal
pub mod Writes
pub mod Outcomes
pub mod Quiet
pub mod Again
mod Tests
use matterloop.Base.{
  ℕ, ◌+◌, suc, String, List, [], ◌∷◌, Option, none, some, Bool, true, false, not, ◌||◌, ◌==◌, eqb,
  if◌then◌else◌, any,
}
use matterloop.Base.Dict.{Dict, get, put}
use matterloop.Core.Status.{ResumeMode}
use matterloop.Core.Context.{LoopRequest, LoopResult, same_request}
use matterloop.Runtime.Queue.{QueueAction, QueuedRun}

pub data RunStatus : Type 0 where
  queued running paused blocked completed failed cancelled timed_out : RunStatus

-- `RunStatus.is_terminal`
unfoldable pub is_terminal : RunStatus → Bool
is_terminal RunStatus.completed = true
is_terminal RunStatus.failed = true
is_terminal RunStatus.cancelled = true
is_terminal RunStatus.timed_out = true
is_terminal _ = false

abbrev pub status_code : RunStatus → ℕ
status_code RunStatus.queued = 0
status_code RunStatus.running = 1
status_code RunStatus.paused = 2
status_code RunStatus.blocked = 3
status_code RunStatus.completed = 4
status_code RunStatus.failed = 5
status_code RunStatus.cancelled = 6
status_code RunStatus.timed_out = 7

-- `status in statuses`
unfoldable pub is_among : List RunStatus → RunStatus → Bool
is_among statuses s = any (λ (t : RunStatus). eqb (status_code t) (status_code s)) statuses

pub record RunRecord : Type 0 where
  pub run_id : String
  pub request : LoopRequest
  pub status : RunStatus
  pub version : ℕ
  pub result : Option LoopResult
  pub error : String
  pub created_at : ℕ
  pub updated_at : ℕ

pub data RunError : Type 0 where
  value_error : RunError
  duplicate_run not_found request_conflict update_conflict : String → RunError
  not_resumable : RunStatus → RunError
  producer_error : String → RunError

pub data Result (A : Type 0) : Type 0 where
  ok : A → Result A
  err : RunError → Result A

abbrev pub Repository : Type 0
Repository = Dict RunRecord

-- `InMemoryRunRepository.create`
unfoldable pub create : RunRecord → Repository → Result (Unit {0}) × Repository
create r d = elim (get d r.run_id) [
  | some other ↦ (err (duplicate_run r.run_id), d)
  | none ↦ (ok tt, put d r.run_id r)
]

-- `InMemoryRunRepository.compare_and_set`, below its test of the identifier.
unfoldable pub set_version :
    String → ℕ → RunRecord → Option RunRecord → Repository → Result Bool × Repository
set_version id expected r none d = (ok false, d)
set_version id expected r (some current) d =
    if not (eqb current.version expected)
    then (ok false, d)
    else (if not (eqb r.version (suc expected))
        then (err value_error, d)
        else (ok true, put d id r))

unfoldable pub compare_and_set : String → ℕ → RunRecord → Repository → Result Bool × Repository
unfolding set_version
compare_and_set id expected r d =
    if r.run_id == id then set_version id expected r (get d id) d else (err value_error, d)
