-- ===== src/Policies/Usage/Settle.antt =====
-- usage.py: `commit` and `rollback` keep the scopes within their limits.
use matterloop.Base.{
  ◌≡◌, refl, String, List, [], ◌∷◌, Option, some, Bool, true, false, not, elem, any, arith, ◌==◌,
  ◌||◌, eq_iff, Bool-cases, Option-cases, inl, inr, ◌⊎◌,
}
use matterloop.Base.Dict.{Dict, get, put, remove, get-put}
use matterloop.Policies.Usage.{
  UsageAmount, zero_amount, BudgetLimits, ScopeState, UsageReservation, over_limit,
}
use matterloop.Policies.Usage.Ledger.{
  UsageLedger, UsageError, Result, ok, err, normalize_scopes, limits_for, state_of, refuses,
  write_all, reserve_in, settle_all, settle, release, require_reservation, is_some,
}
use matterloop.Policies.Usage.Ledger
use matterloop.Policies.Usage.Limits.{over_limit-release}
use matterloop.Policies.Usage.Within.{IsTested, none_refuses, accepted}

-- Settling scopes keeps what the change of one scope keeps, and leaves the other scopes.
settle_all-keeps :
    (P : String → ScopeState → Type 0) (f : ScopeState → Option ScopeState)
    → ((k : String) (s s' : ScopeState) → P k s → f s ≡ some s' → P k s')
    → (scopes : List String) (states : Dict ScopeState)
    → ((k : String) (s : ScopeState) → get states k ≡ some s → P k s)
    → (k : String) (s : ScopeState) → get (settle_all f scopes states).1 k ≡ some s
    → P k s
unfolding settle_all
settle_all-keeps P f keeps [] states h k s e = h k s e
settle_all-keeps P f keeps (c ∷ scopes) states h k s e = elim (Option-cases (get states c)) [
  | inl n ↦ h k s (rw (n, settle_all) at e)
  | inr (t, q) ↦ elim (Option-cases (f t)) [
    | inl n ↦ h k s (rw (q, n, settle_all) at e)
    | inr (t', r) ↦
        settle_all-keeps P f keeps scopes (put states c t')
          (λ j u x. elim (Bool-cases (c == j)) [
            | inl y ↦
                let same : t' ≡ u = cc (rw (get-put, y) at x) in
                rw (← same, ← (eq_iff c j).0 y) (keeps c t t' (h c t q) r)
            | inr n ↦ h j u (rw (get-put, n) at x)
          ])
          k s (rw (q, r, settle_all) at e)
  ]
]

pub settle_all-other :
    (f : ScopeState → Option ScopeState) (scopes : List String) (states : Dict ScopeState)
    (k : String)
    → elem k scopes ≡ false
    → get (settle_all f scopes states).1 k ≡ get states k
unfolding settle_all
settle_all-other f [] states k h = refl
settle_all-other f (c ∷ scopes) states k h = elim (Option-cases (get states c)) [
  | inl n ↦ rw (n, settle_all) refl
  | inr (t, q) ↦ elim (Option-cases (f t)) [
    | inl n ↦ rw (q, n, settle_all) refl
    | inr (t', r) ↦
        rw (q, r, settle_all)
          (ground (
            arith,
            settle_all-other f scopes (put states c t') k,
            get-put states c k t',
            eq_iff c k,
            eq_iff k c,
            h,
          ))
  ]
]

pub state_of-found :
    (states : Dict ScopeState) (k : String) (s : ScopeState)
    → get states k ≡ some s
    → state_of states k ≡ s
unfolding state_of
state_of-found states k s e = rw (e, state_of) refl

Result-cases :
    {A : Type 0} (r : Result A) → ((e : UsageError) × (r ≡ err e)) ⊎ ((a : A) × (r ≡ ok a))
Result-cases (err e) = inl (e, refl)
Result-cases (ok a) = inr (a, refl)

IsTested-release :
    (amount : UsageAmount) (scopes : List String) (l : UsageLedger)
    (reservations : Dict UsageReservation)
    → IsTested l
    → IsTested (record l {
      states = (settle_all (release amount) scopes l.states).1;
      reservations = reservations;
    })
unfolding limits_for
IsTested-release amount scopes l reservations w = record {
  at = λ k b s q e.
      settle_all-keeps
        (λ k s. (b : BudgetLimits) → limits_for l k ≡ some b → over_limit s zero_amount b ≡ false)
        (release amount) (λ k s s' h x c y. over_limit-release s s' amount c x (h c y)) scopes
        l.states (λ k s x c y. w.at k c s y x) k s e b q;
}

pub IsTested-rollback :
    (r : UsageReservation) (l : UsageLedger) → IsTested l → IsTested (Ledger.rollback r l).1
unfolding Ledger.rollback
IsTested-rollback r l w = elim (Option-cases (require_reservation r l)) [
  | inl n ↦ rw (n, Ledger.rollback) w
  | inr (stored, q) ↦
      elim (Result-cases (settle_all (release stored.amount) stored.scopes l.states).0) [
        | inl (x, e) ↦
            rw (q, e, Ledger.rollback)
              (IsTested-release stored.amount stored.scopes l l.reservations w)
        | inr (x, e) ↦
            rw (q, e, Ledger.rollback) (IsTested-release stored.amount stored.scopes l _ w)
      ]
]

-- A settlement that is not refused has tested every scope that it has changed.
IsTested-settled :
    (f : ScopeState → Option ScopeState) (scopes : List String) (l : UsageLedger)
    (reservations : Dict UsageReservation)
    → IsTested l
    → any
        (refuses
          (record l { states = (settle_all f scopes l.states).1; reservations = reservations })
          zero_amount)
        scopes
      ≡ false
    → IsTested (record l { states = (settle_all f scopes l.states).1; reservations = reservations })
unfolding limits_for
IsTested-settled f scopes l reservations w h = record {
  at = λ k b s q e. elim (Bool-cases (elem k scopes)) [
    | inl y ↦
        rw (state_of-found _ k s e) at (accepted _ zero_amount k b (none_refuses _ scopes k h y) q)
    | inr n ↦ w.at k b s q (rw (settle_all-other f scopes l.states k n) at e)
  ];
}

abbrev is_ok : {A : Type 0} → Result A → Bool
is_ok (ok a) = true
is_ok (err e) = false

-- The call is refused without a change, or it returns.
unfoldable pub commits : UsageReservation → Option UsageAmount → UsageLedger → Bool
unfolding Ledger.commit require_reservation
commits r actual l = not (is_some (require_reservation r l)) || is_ok (Ledger.commit r actual l).0

pub IsTested-commit :
    (r : UsageReservation) (actual : Option UsageAmount) (l : UsageLedger)
    → IsTested l
    → commits r actual l ≡ true
    → IsTested (Ledger.commit r actual l).1
unfolding Ledger.commit commits
IsTested-commit r actual l w fine = elim (Option-cases (require_reservation r l)) [
  | inl n ↦ rw (n, Ledger.commit) w
  | inr (stored, q) ↦
      let f = settle stored.amount (Ledger.actual_amount r actual) in
      let later : UsageLedger = record l {
        states = (settle_all f stored.scopes l.states).1;
        reservations = remove l.reservations stored.reservation_id;
      } in
      elim (Result-cases (settle_all f stored.scopes l.states).0) [
        | inl (x, e) ↦ cc (rw (q, e, commits, Ledger.commit) at fine)
        | inr (x, e) ↦ elim (Bool-cases (any (refuses later zero_amount) stored.scopes)) [
          | inl y ↦ cc (rw (q, e, y, commits, Ledger.commit) at fine)
          | inr h ↦ rw (q, e, h, Ledger.commit) (IsTested-settled f stored.scopes l _ w h)
        ]
      ]
]
