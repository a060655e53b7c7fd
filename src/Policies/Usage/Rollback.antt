-- ===== src/Policies/Usage/Rollback.antt =====
-- usage.py: `reserve` and then `rollback`.
use matterloop.Base.{
  ◌≡◌, refl, sym, ap, ◌∙◌, String, List, [], ◌∷◌, none, some, true, elem, any, arith, ◌==◌, ◌||◌,
  eq_iff, eq_self, Bool-cases, Option-cases, inl, inr,
}
use matterloop.Base.Dict.{Dict, get, put, remove, get-put, get-remove}
use matterloop.Base.Text.{is_blank}
use matterloop.Policies.Usage.{UsageAmount, ScopeState, UsageReservation, is_zero}
use matterloop.Policies.Usage.Ledger.{
  UsageLedger, UsageError, Result, ok, err, distinct, normalize_scopes, refuses, state_of,
  write_all, reserve_in, settle_all, release, require_reservation, same_amount, same_scopes,
  is_some,
}
use matterloop.Policies.Usage.Ledger
use matterloop.Policies.Usage.Settle.{settle_all-other, state_of-found}
use matterloop.Policies.Usage.Within.{get-write_all, normalize_scopes_distinct}
use matterloop.Policies.Usage.Undo.{
  SameUsage, SameUsage-self, SameUsage-released, released, release-reserve, Changes,
  settle_all-returns, settle_all-at, same_amount_self,
}

abbrev reserved : String → List String → UsageAmount → UsageReservation
reserved id scopes amount = record { reservation_id = id; scopes = scopes; amount = amount }

-- The ledger with a reservation more.
abbrev with_reservation : String → List String → UsageAmount → UsageLedger → UsageLedger
with_reservation id scopes amount l = record l {
  states = write_all (reserve_in amount) scopes l.states;
  reservations = put l.reservations id (reserved id scopes amount);
}

-- What `reserve` does when it returns.
record Reserves (amount : UsageAmount) (id : String) (l : UsageLedger) (r : UsageReservation)
    (l' : UsageLedger) : Type 0 where
  normalized : List String
  are_distinct : distinct normalized ≡ true
  is_new : get l.reservations id ≡ none
  reservation : r ≡ reserved id normalized amount
  after : l' ≡ with_reservation id normalized amount l

Reserves-reserve :
    (scopes : List String) (amount : UsageAmount) (id : String) (l : UsageLedger)
    (r : UsageReservation) (l' : UsageLedger)
    → Ledger.reserve scopes amount id l ≡ (ok r, l')
    → Reserves amount id l r l'
unfolding Ledger.reserve
Reserves-reserve scopes amount id l r l' e = elim (Option-cases (normalize_scopes scopes)) [
  | inl n ↦ cc (rw (n, Ledger.reserve) at e)
  | inr (normalized, q) ↦ elim (Bool-cases (is_zero amount || is_blank id)) [
    | inl y ↦ cc (rw (q, y, Ledger.reserve) at e)
    | inr n ↦ elim (Bool-cases (is_some (get l.reservations id))) [
      | inl y ↦ cc (rw (q, n, y, Ledger.reserve) at e)
      | inr m ↦ elim (Bool-cases (any (refuses l amount) normalized)) [
        | inl y ↦ cc (rw (q, n, m, y, Ledger.reserve) at e)
        | inr h ↦
            let both : (ok (reserved id normalized amount), with_reservation id normalized amount l)
                ≡ (ok r, l') =
              rw (q, n, m, h, Ledger.reserve) at e in
            let first : ok (reserved id normalized amount) ≡ ok r = ap (λ p. p.0) both in
            record {
              normalized = normalized;
              are_distinct = normalize_scopes_distinct scopes normalized q;
              is_new = elim (Option-cases (get l.reservations id)) [
                | inl none_there ↦ none_there
                | inr (x, k) ↦ cc (rw k at m)
              ];
              reservation = cc;
              after = sym (ap (λ p. p.1) both);
            }
      ]
    ]
  ]
]

some_same : {A : Type 0} (a b : A) → some a ≡ some b → a ≡ b
some_same a b e = cc

state_of_same :
    (a b : Dict ScopeState) (k : String) → get a k ≡ get b k → state_of a k ≡ state_of b k
unfolding state_of
state_of_same a b k h = rw (h, state_of) refl

same_scopes_self : (scopes : List String) → same_scopes scopes scopes ≡ true
same_scopes_self [] = refl
same_scopes_self (s ∷ scopes) = ground (arith, eq_self s, same_scopes_self scopes)

require_reservation_found :
    (r : UsageReservation) (l : UsageLedger)
    → get l.reservations r.reservation_id ≡ some r
    → require_reservation r l ≡ some r
unfolding require_reservation
require_reservation_found r l e =
    rw (e, require_reservation)
      (rw (eq_self r.reservation_id, same_scopes_self r.scopes, same_amount_self r.amount) refl)

module _ (amount : UsageAmount) (id : String) (scopes : List String) (l : UsageLedger)
    (u : distinct scopes ≡ true) (new : get l.reservations id ≡ none) where
  abbrev later : UsageLedger
  later = with_reservation id scopes amount l

  -- Each scope of the reservation has the amount.
  Changes-later : Changes (release amount) scopes later.states
  unfolding Changes
  Changes-later k m =
      let s : ScopeState = state_of l.states k in
      (
        reserve_in amount s,
        released amount s,
        rw (get-write_all (reserve_in amount) scopes l.states k u, m) refl,
        release-reserve amount s,
      )

  abbrev settled : Result Unit × Dict ScopeState
  settled = settle_all (release amount) scopes later.states

  rollback_runs :
      Ledger.rollback (reserved id scopes amount) later
      ≡ (ok tt, record later { states = settled.1; reservations = remove later.reservations id })
  unfolding Ledger.rollback
  rollback_runs =
      let found : get later.reservations id ≡ some (reserved id scopes amount) =
        rw (get-put, eq_self id) refl in
      rw
        (
          require_reservation_found (reserved id scopes amount) later found,
          settle_all-returns (release amount) scopes later.states u Changes-later,
          Ledger.rollback,
        )
        refl

  SameUsage-settled : (k : String) → SameUsage (state_of l.states k) (state_of settled.1 k)
  SameUsage-settled k = elim (Bool-cases (elem k scopes)) [
    | inl y ↦
        let before : ScopeState = state_of l.states k in
        let (s, t, e, q, at) =
          settle_all-at (release amount) scopes later.states u Changes-later k y in
        let written : get later.states k ≡ some (reserve_in amount before) =
          rw (get-write_all (reserve_in amount) scopes l.states k u, y) refl in
        let first : reserve_in amount before ≡ s = some_same _ _ (sym written ∙ e) in
        let second : released amount before ≡ t =
          some_same _ _ (sym (release-reserve amount before) ∙ ap (release amount) first ∙ q) in
        rw (state_of-found settled.1 k t at, ← second) (SameUsage-released amount before)
    | inr n ↦
        let same : get settled.1 k ≡ get l.states k =
          settle_all-other (release amount) scopes later.states k n
          ∙ rw (get-write_all (reserve_in amount) scopes l.states k u, n) refl in
        rw (state_of_same settled.1 l.states k same) (SameUsage-self (state_of l.states k))
  ]

  reservations_kept : (j : String) → get (remove later.reservations id) j ≡ get l.reservations j
  reservations_kept j = elim (Bool-cases (id == j)) [
    | inl y ↦ rw (get-remove, y, ← (eq_iff id j).0 y) (sym new)
    | inr n ↦ rw (get-remove, n, get-put, n) refl
  ]

-- A reservation that `reserve` returns can be rolled back: `rollback` returns, every scope has again
-- what it had committed, the same active calls and as much reserved of each resource and each
-- currency, and the open reservations are those from before.
pub rollback_undoes_reserve :
    (scopes : List String) (amount : UsageAmount) (id : String) (l : UsageLedger)
    (r : UsageReservation) (l' : UsageLedger)
    → Ledger.reserve scopes amount id l ≡ (ok r, l')
    → ((Ledger.rollback r l').0 ≡ ok tt)
      × ((k : String)
          → SameUsage (state_of l.states k) (state_of (Ledger.rollback r l').1.states k))
      × ((j : String) → get (Ledger.rollback r l').1.reservations j ≡ get l.reservations j)
rollback_undoes_reserve scopes amount id l r l' e =
    let x = Reserves-reserve scopes amount id l r l' e in
    let runs = rollback_runs amount id x.normalized l x.are_distinct x.is_new in
    rw (x.reservation, x.after, runs)
      (
        refl,
        SameUsage-settled amount id x.normalized l x.are_distinct x.is_new,
        reservations_kept amount id x.normalized l x.are_distinct x.is_new,
      )
