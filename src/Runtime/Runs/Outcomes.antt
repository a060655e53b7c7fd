-- ===== src/Runtime/Runs/Outcomes.antt =====
-- `QueueRuntime` (queueing.py): what an answer of its methods says of the repository.
use matterloop.Base.{
  ◌≡◌, refl, ◌∙◌, ap, eq_iff, ℕ, zero, suc, String, List, ◌∷◌, Option, none, some, Bool, true,
  false, ◌==◌, arith, eq_self, Bool-cases, Option-cases, inl, inr,
}
use matterloop.Base.Dict.{get, get-put}
use matterloop.Runtime.Runs.{
  RunStatus, is_terminal, RunRecord, Result, ok, err, Repository, compare_and_set, set_version,
}
use matterloop.Runtime.Runs.Update.{
  Environment, Answer, accepted, raised, Write, log_if, World, Change, is_expected, replacement,
  await_others, replace_record, try_update, round_result, update_round, decide, update_rounds,
  update,
}
use matterloop.Runtime.Runs.Legal.{IsVersioned, compare_and_set-found}
use matterloop.Runtime.Runs.Methods.{
  waits, cancel_change, ask_producer, cancel_known, cancel_found, cancel,
}

-- The record of a run is the replacement of the one that the repository had until then, which was
-- not terminal; `log` is what was written before.
abbrev pub Done : String → Change → List Write → World → Type 0
Done id c log w =
    (b : RunRecord) × (now : ℕ) × (w.writes
      ≡ record { before = some b; after = replacement c now b } ∷ log)
    × (get w.repository id ≡ some (replacement c now b))
    × (b.run_id ≡ id)
    × (is_terminal b.status ≡ false)

compare_and_set-own :
    (id : String) (e : ℕ) (r : RunRecord) (d : Repository)
    → (compare_and_set id e r d).0 ≡ ok true
    → r.run_id ≡ id
unfolding compare_and_set
compare_and_set-own id e r d h = elim (Bool-cases (r.run_id == id)) [
  | inr n ↦ cc (rw (n, compare_and_set) at h)
  | inl y ↦ (eq_iff r.run_id id).0 y
]

compare_and_set-done :
    (id : String) (e : ℕ) (r : RunRecord) (d : Repository)
    → (compare_and_set id e r d).0 ≡ ok true
    → get (compare_and_set id e r d).1 id ≡ some r
unfolding compare_and_set
compare_and_set-done id e r d h = elim (Bool-cases (r.run_id == id)) [
  | inr n ↦ cc (rw (n, compare_and_set) at h)
  | inl y ↦ elim (Option-cases (get d id)) [
    | inl n ↦ cc (rw (y, n, compare_and_set, set_version) at h)
    | inr (m, e') ↦
        (let u = rw (y, e', compare_and_set, set_version) at h in
          rw (y, e', compare_and_set, set_version)
            (ground (arith, u, get-put d id id r, eq_self id)))
  ]
]

said_true : (r : Result Bool) → round_result r ≡ ok (some true) → r ≡ ok true
unfolding round_result
said_true (ok true) h = refl
said_true (ok false) h = cc
said_true (err e) h = cc

same_id : (c : Change) (now : ℕ) (r : RunRecord) → r.run_id ≡ (replacement c now r).run_id
unfolding replacement
same_id c now r = refl

abbrev entry_of : Option RunRecord → RunRecord → Write
entry_of before after = record { before = before; after = after }

log_if-true :
    (r : Result Bool) (entry : Write) (log : List Write)
    → r ≡ ok true
    → log_if r entry log ≡ entry ∷ log
log_if-true (ok true) entry log h = refl
log_if-true (ok false) entry log h = cc
log_if-true (err e) entry log h = cc

log_if-false :
    (r : Result Bool) (entry : Write) (log : List Write)
    → round_result r ≡ ok none
    → log_if r entry log ≡ log
unfolding round_result
log_if-false (ok true) entry log h = cc
log_if-false (ok false) entry log h = refl
log_if-false (err e) entry log h = refl

module _ (env : Environment) (versioned : IsVersioned env) (id : String) (c : Change) where
  -- The record that is replaced is the one that the round has read.
  still_stored :
      (r : RunRecord) (w : World)
      → get w.repository id ≡ some r
      → (compare_and_set id r.version
          (replacement c (env.now w.step) r)
          (await_others env w).repository).0
        ≡ ok true
      → get (await_others env w).repository id ≡ some r
  unfolding await_others
  still_stored r w g k =
      let next = replacement c (env.now w.step) r in
      let (m, found, same) =
        compare_and_set-found id r.version next (await_others env w).repository k in
      found ∙ ap (λ (x : RunRecord). some x) (versioned w.step w.repository id r m g found same)

  logged :
      (r : RunRecord) (w : World)
      → get w.repository id ≡ some r
      → (compare_and_set id r.version
          (replacement c (env.now w.step) r)
          (await_others env w).repository).0
        ≡ ok true
      → (replace_record env id r.version (replacement c (env.now w.step) r) w).1.writes
        ≡ record { before = some r; after = replacement c (env.now w.step) r } ∷ w.writes
  unfolding replace_record
  logged r w g k =
      let next = replacement c (env.now w.step) r in
      log_if-true _ _ w.writes k
      ∙ ap (λ (o : Option RunRecord). entry_of o next ∷ w.writes) (still_stored r w g k)

  Done-try_update :
      (o : Option RunRecord) (w : World)
      → get w.repository id ≡ o
      → (try_update env id c o w).0 ≡ ok (some true)
      → Done id c w.writes (try_update env id c o w).1
  unfolding try_update replace_record
  Done-try_update none w g h = cc
  Done-try_update (some r) w g h = elim (Bool-cases (is_terminal r.status)) [
    | inl y ↦ cc (rw (y, try_update) at h)
    | inr n ↦ elim (Bool-cases (is_expected c.expected r.status)) [
      | inr u ↦ cc (rw (n, u, try_update) at h)
      | inl y ↦
          (let k = said_true _ (rw (n, y, try_update) at h) in
            let next = replacement c (env.now w.step) r in
            let d = (await_others env w).repository in
            rw (n, y, try_update)
              (
                r,
                env.now w.step,
                logged r w g k,
                compare_and_set-done id r.version next d k,
                same_id c (env.now w.step) r ∙ compare_and_set-own id r.version next d k,
                n,
              ))
    ]
  ]

  -- A round that has lost writes nothing.
  lost_round :
      (o : Option RunRecord) (w : World)
      → (try_update env id c o w).0 ≡ ok none
      → (try_update env id c o w).1.writes ≡ w.writes
  unfolding try_update replace_record
  lost_round none w h = refl
  lost_round (some r) w h = elim (Bool-cases (is_terminal r.status)) [
    | inl y ↦ rw (y, try_update) refl
    | inr n ↦ elim (Bool-cases (is_expected c.expected r.status)) [
      | inr u ↦ rw (n, u, try_update) refl
      | inl y ↦
          (let k = rw (n, y, try_update) at h in
            rw (n, y, try_update) (log_if-false _ _ w.writes k))
    ]
  ]

  Done-log : (log log' : List Write) (w : World) → log ≡ log' → Done id c log w → Done id c log' w
  Done-log log log' w e (b, now, written, found, own, unended) = (
    b,
    now,
    written ∙ ap (λ (l : List Write). entry_of (some b) (replacement c now b) ∷ l) e,
    found,
    own,
    unended,
  )

  Done-decide :
      (log : List Write) (x : Result (Option Bool) × World) (next : World → Result Bool × World)
      → (x.0 ≡ ok (some true) → Done id c log x.1)
      → (x.0 ≡ ok none → x.1.writes ≡ log)
      → ((w : World) → (next w).0 ≡ ok true → Done id c w.writes (next w).1)
      → (decide x next).0 ≡ ok true
      → Done id c log (decide x next).1
  unfolding decide
  Done-decide log (err e, w) next p q k h = cc
  Done-decide log (ok none, w) next p q k h = Done-log w.writes log (next w).1 (q refl) (k w h)
  Done-decide log (ok (some true), w) next p q k h = p refl
  Done-decide log (ok (some false), w) next p q k h = cc

  Done-update_rounds :
      (n : ℕ) (w : World)
      → (update_rounds env n id c w).0 ≡ ok true
      → Done id c w.writes (update_rounds env n id c w).1
  unfolding update_rounds update_round
  Done-update_rounds zero w h = cc
  Done-update_rounds (suc n) w h =
      let seen = await_others env w in
      Done-decide w.writes (update_round env id c w) (update_rounds env n id c)
        (λ e. Done-try_update (get seen.repository id) seen refl e)
        (λ e. lost_round (get seen.repository id) seen e) (Done-update_rounds n) h

module _ (env : Environment) (versioned : IsVersioned env) (id : String) where
  Done-cancel_known :
      (answer : Answer) (w : World)
      → (cancel_known env id answer w).0 ≡ ok true
      → Done id cancel_change w.writes (cancel_known env id answer w).1
  unfolding cancel_known update
  Done-cancel_known (raised text) w h = cc
  Done-cancel_known (accepted false) w h = cc
  Done-cancel_known (accepted true) w h = Done-update_rounds env versioned id cancel_change 16 w h

  ask_producer-writes : (s : RunStatus) (w : World) → (ask_producer env s id w).1.writes ≡ w.writes
  unfolding ask_producer
  ask_producer-writes s w = elim (Bool-cases (waits s)) [
    | inl y ↦ rw (y, ask_producer) refl
    | inr n ↦ rw (n, ask_producer) refl
  ]

  Done-cancel_found :
      (o : Option RunRecord) (w : World)
      → (cancel_found env id o w).0 ≡ ok true
      → Done id cancel_change w.writes (cancel_found env id o w).1
  unfolding cancel_found
  Done-cancel_found none w h = cc
  Done-cancel_found (some r) w h = elim (Bool-cases (is_terminal r.status)) [
    | inl y ↦ cc (rw (y, cancel_found) at h)
    | inr n ↦
        (let asked = ask_producer env r.status id w in
          let done = Done-cancel_known asked.0 asked.1 (rw (n, cancel_found) at h) in
          rw n (
            Done-log env versioned id cancel_change asked.1.writes w.writes
              (cancel_known env id asked.0 asked.1).1 (ask_producer-writes r.status w) done))
  ]

-- The next version of a record, cancelled.
abbrev pub cancelled_version : ℕ → RunRecord → RunRecord
cancelled_version now b = record b {
  status = RunStatus.cancelled;
  version = suc b.version;
  result = none;
  error = "";
  updated_at = now;
}

-- Where `cancel` answers yes, whatever the producer says and others do that gives each change of a
-- record another version, it has written one record: the cancelled next version, with no result and no
-- error, of the record that the repository had for the run until then, which was not terminal; and the
-- repository then has what was written.
pub cancel_accepted :
    (env : Environment) (id : String) (w : World)
    → IsVersioned env
    → (cancel env id w).0 ≡ ok true
    → (b : RunRecord) × (now : ℕ) × ((cancel env id w).1.writes
        ≡ record { before = some b; after = cancelled_version now b } ∷ w.writes)
      × (get (cancel env id w).1.repository id ≡ some (cancelled_version now b))
      × (b.run_id ≡ id)
      × (is_terminal b.status ≡ false)
unfolding cancel replacement
cancel_accepted env id w v h =
    Done-cancel_found env v id (get (await_others env w).repository id) (await_others env w) h
