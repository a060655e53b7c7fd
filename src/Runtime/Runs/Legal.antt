-- ===== src/Runtime/Runs/Legal.antt =====
-- `QueueRuntime` (queueing.py): what it writes to the repository, whatever others do between its steps.
use matterloop.Base.{
  ◌≡◌, refl, ℕ, zero, suc, String, List, Option, none, some, Bool, true, false, ◌==◌, All, arith,
  Bool-cases, Option-cases, inl, inr,
}
use matterloop.Base.Dict.{get}
use matterloop.Runtime.Runs.{
  RunStatus, is_terminal, RunRecord, Result, ok, err, Repository, compare_and_set, set_version,
}
use matterloop.Runtime.Runs.Update.{
  Environment, Write, World, Change, is_expected, replacement, await_others, log_if, log_created,
  replace_record, try_update, update_round, decide, update_rounds, update, after_failure,
}

-- The moves of a record that the facade may make; none leaves a terminal status.
unfoldable pub moves : (before after : RunStatus) → Bool
moves RunStatus.queued RunStatus.failed = true
moves RunStatus.queued RunStatus.cancelled = true
moves RunStatus.queued RunStatus.paused = true
moves RunStatus.queued RunStatus.blocked = true
moves RunStatus.running RunStatus.cancelled = true
moves RunStatus.paused RunStatus.cancelled = true
moves RunStatus.paused RunStatus.queued = true
moves RunStatus.blocked RunStatus.cancelled = true
moves RunStatus.blocked RunStatus.queued = true
moves _ _ = false

-- A new record is queued with version 0; another is the next version of the record that it replaces,
-- for the same run and request, by a move of the table.
abbrev pub Replaces : Option RunRecord → RunRecord → Type 0
Replaces none r = (r.status ≡ RunStatus.queued) × (r.version ≡ 0)
Replaces (some b) r =
    (r.version ≡ suc b.version)
    × (r.run_id ≡ b.run_id)
    × (r.request ≡ b.request)
    × (moves b.status r.status ≡ true)

abbrev pub IsLegal : Write → Type 0
IsLegal w = Replaces w.before w.after

-- Another writer that changes a record gives it another version.
abbrev pub IsVersioned : Environment → Type 0
IsVersioned env =
    (n : ℕ) (d : Repository) (id : String) (r r' : RunRecord)
    → get d id ≡ some r
    → get (env.others n d) id ≡ some r'
    → r'.version ≡ r.version
    → r' ≡ r

abbrev pub IsSafe : Change → Type 0
IsSafe c =
    (s : RunStatus)
    → is_terminal s ≡ false
    → is_expected c.expected s ≡ true
    → moves s c.status ≡ true

pub compare_and_set-found :
    (id : String) (e : ℕ) (r : RunRecord) (d : Repository)
    → (compare_and_set id e r d).0 ≡ ok true
    → (m : RunRecord) × (get d id ≡ some m) × (m.version ≡ e)
unfolding compare_and_set
compare_and_set-found id e r d h = elim (Bool-cases (r.run_id == id)) [
  | inr n ↦ cc (rw (n, compare_and_set) at h)
  | inl y ↦ elim (Option-cases (get d id)) [
    | inl n ↦ cc (rw (y, n, compare_and_set, set_version) at h)
    | inr (m, e') ↦ (m, e', ground (arith, rw (y, e', compare_and_set, set_version) at h))
  ]
]

All-log_if :
    (result : Result Bool) (entry : Write) (log : List Write)
    → (result ≡ ok true → IsLegal entry)
    → All IsLegal log
    → All IsLegal (log_if result entry log)
All-log_if (ok true) entry log p a = (p refl, a)
All-log_if (ok false) entry log p a = a
All-log_if (err e) entry log p a = a

pub All-log_created :
    (result : Result (Unit {0})) (r : RunRecord) (log : List Write)
    → (r.status ≡ RunStatus.queued) × (r.version ≡ 0)
    → All IsLegal log
    → All IsLegal (log_created result r log)
All-log_created (ok u) r log p a = (p, a)
All-log_created (err e) r log p a = a

abbrev pub AllLegal : World → Type 0
AllLegal w = All IsLegal w.writes

module _ (env : Environment) (versioned : IsVersioned env) where
  module _ (id : String) (c : Change) (safe : IsSafe c) where
    replacement_legal :
        (r : RunRecord) (now : ℕ)
        → is_terminal r.status ≡ false
        → is_expected c.expected r.status ≡ true
        → Replaces (some r) (replacement c now r)
    unfolding replacement
    replacement_legal r now n y = (refl, refl, refl, safe r.status n y)

    AllLegal-try_update :
        (o : Option RunRecord) (w : World)
        → get w.repository id ≡ o
        → AllLegal w
        → AllLegal (try_update env id c o w).1
    unfolding try_update replace_record
    AllLegal-try_update none w e a = a
    AllLegal-try_update (some r) w e a = elim (Bool-cases (is_terminal r.status)) [
      | inl y ↦ rw y a
      | inr n ↦ rw n (elim (Bool-cases (is_expected c.expected r.status)) [
        | inr u ↦ rw u a
        | inl y ↦ rw y (
            All-log_if _ _ w.writes
              (λ h.
                let d = env.others w.step w.repository in
                let next = replacement c (env.now w.step) r in
                let (m, found, same) = compare_and_set-found id r.version next d h in
                let kept = versioned w.step w.repository id r m e found same in
                rw (found, kept) (replacement_legal r (env.now w.step) n y))
              a)
      ])
    ]

    AllLegal-update_round : (w : World) → AllLegal w → AllLegal (update_round env id c w).1
    unfolding update_round
    AllLegal-update_round w a =
        AllLegal-try_update (get (await_others env w).repository id) (await_others env w) refl a

    AllLegal-decide :
        (x : Result (Option Bool) × World) (next : World → Result Bool × World)
        → AllLegal x.1
        → ((w : World) → AllLegal w → AllLegal (next w).1)
        → AllLegal (decide x next).1
    unfolding decide
    AllLegal-decide (err e, w) next a k = a
    AllLegal-decide (ok (some b), w) next a k = a
    AllLegal-decide (ok none, w) next a k = k w a

    AllLegal-update_rounds :
        (n : ℕ) (w : World) → AllLegal w → AllLegal (update_rounds env n id c w).1
    unfolding update_rounds
    AllLegal-update_rounds zero w a = a
    AllLegal-update_rounds (suc n) w a =
        AllLegal-decide (update_round env id c w) (update_rounds env n id c)
          (AllLegal-update_round w a) (AllLegal-update_rounds n)

    pub AllLegal-update : (w : World) → AllLegal w → AllLegal (update env id c w).1
    unfolding update
    AllLegal-update w a = AllLegal-update_rounds 16 w a

    pub AllLegal-after_failure :
        (A : Type 0) (text : String) (w : World)
        → AllLegal w
        → AllLegal (after_failure env {A = A} id c text w).1
    unfolding after_failure
    AllLegal-after_failure A text w a = AllLegal-update w a
