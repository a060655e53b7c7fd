-- ===== src/Runtime/Runs/Update.antt =====
-- `QueueRuntime` (queueing.py): its calls of the repository and of the producer, and `_update`.
use matterloop.Base.{
  ℕ, zero, suc, String, List, ◌∷◌, Option, none, some, Bool, true, false, not, if◌then◌else◌,
}
use matterloop.Base.Dict.{get}
use matterloop.Core.Context.{LoopResult}
use matterloop.Runtime.Queue.{QueuedRun}
use matterloop.Runtime.Runs.{
  RunStatus, is_terminal, is_among, RunRecord, not_found, update_conflict, producer_error, Result,
  ok, err, Repository, create, compare_and_set,
}

pub data Answer : Type 0 where
  accepted : Bool → Answer
  raised : String → Answer

-- What the runtime is used with: the other writers, the clock, and the producer, whose `enqueue`
-- raises where it gives a text. Each may answer differently at each step.
pub record Environment : Type 0 where
  pub others : ℕ → Repository → Repository
  pub now : ℕ → ℕ
  pub enqueue : ℕ → QueuedRun → Option String
  pub cancel : ℕ → String → Answer

-- A record that the runtime has written, and the one that it has replaced.
pub record Write : Type 0 where
  pub before : Option RunRecord
  pub after : RunRecord

pub record World : Type 0 where
  pub repository : Repository
  pub step : ℕ
  pub writes : List Write
  pub sent : List QueuedRun

abbrev pub Action : Type 0 → Type 0
Action A = World → Result A × World

abbrev pub log_if : Result Bool → Write → List Write → List Write
log_if (ok true) entry log = entry ∷ log
log_if _ entry log = log

abbrev pub log_created : Result (Unit {0}) → RunRecord → List Write → List Write
log_created (ok u) r log = record { before = none; after = r } ∷ log
log_created _ r log = log

-- What `_update` changes.
pub record Change : Type 0 where
  pub status : RunStatus
  pub result : Option LoopResult
  pub error : String
  pub expected : Option (List RunStatus)

abbrev pub is_expected : Option (List RunStatus) → RunStatus → Bool
is_expected none s = true
is_expected (some statuses) s = is_among statuses s

unfoldable pub replacement : Change → ℕ → RunRecord → RunRecord
replacement c now r = record r {
  status = c.status;
  version = suc r.version;
  result = c.result;
  error = c.error;
  updated_at = now;
}

unfoldable pub decide :
    Result (Option Bool) × World → (World → Result Bool × World) → Result Bool × World
decide (err e, w) next = (err e, w)
decide (ok (some b), w) next = (ok b, w)
decide (ok none, w) next = next w

-- `if await compare_and_set(...): return True`
unfoldable pub round_result : Result Bool → Result (Option Bool)
round_result (err e) = err e
round_result (ok true) = ok (some true)
round_result (ok false) = ok none

unfoldable pub failure_result : {A : Type 0} → String → Result Bool → Result A
failure_result text (err e) = err e
failure_result text (ok b) = err (producer_error text)

module _ (env : Environment) where
  -- The other writers act before a call of the repository.
  unfoldable pub await_others : World → World
  await_others w = record w { repository = env.others w.step w.repository; step = suc w.step }

  unfoldable pub read : String → World → Option RunRecord × World
  unfolding await_others
  read id w = let w' = await_others w in (get w'.repository id, w')

  -- `compare_and_set` of the repository.
  unfoldable pub replace_record : String → ℕ → RunRecord → Action Bool
  unfolding await_others compare_and_set
  replace_record id expected r w =
      let w' = await_others w in
      let (result, d) = compare_and_set id expected r w'.repository in
      (
        result,
        record w' {
          repository = d;
          writes = log_if result (record { before = get w'.repository id; after = r }) w'.writes;
        },
      )

  -- `create` of the repository.
  unfoldable pub create_record : RunRecord → Action (Unit {0})
  unfolding await_others create
  create_record r w =
      let w' = await_others w in
      let (result, d) = create r w'.repository in
      (result, record w' { repository = d; writes = log_created result r w'.writes })

  -- One round of `_update`: `none` where the round has lost against another writer.
  unfoldable pub try_update :
      String → Change → Option RunRecord → World → Result (Option Bool) × World
  unfolding replacement replace_record round_result
  try_update id c none w = (err (not_found id), w)
  try_update id c (some r) w =
      if is_terminal r.status
      then (ok (some false), w)
      else (if not (is_expected c.expected r.status)
          then (ok (some false), w)
          else (let (result, w') =
                replace_record id r.version (replacement c (env.now w.step) r) w in
              (round_result result, w')))

  unfoldable pub update_round : String → Change → World → Result (Option Bool) × World
  unfolding read try_update
  update_round id c w = let (r, w') = read id w in try_update id c r w'

  -- `_update` with the rounds that are left.
  unfoldable pub update_rounds : ℕ → String → Change → Action Bool
  unfolding update_round decide
  update_rounds zero id c w = (err (update_conflict id), w)
  update_rounds (suc n) id c w = decide (update_round id c w) (update_rounds n id c)

  -- `_update`
  unfoldable pub update : String → Change → Action Bool
  unfolding update_rounds
  update id c w = update_rounds 16 id c w

  -- `producer.enqueue`, with the text of what it raises.
  unfoldable pub send : QueuedRun → World → Option String × World
  send job w = (env.enqueue w.step job, record w { step = suc w.step; sent = job ∷ w.sent })

  -- What follows an exception of the producer: the record is changed, and the exception goes on.
  unfoldable pub after_failure : {A : Type 0} → String → Change → String → Action A
  unfolding update failure_result
  after_failure id c text w = let (result, w') = update id c w in (failure_result text result, w')
