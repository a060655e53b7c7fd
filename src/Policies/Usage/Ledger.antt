-- ===== src/Policies/Usage/Ledger.antt =====
-- usage.py: `UsageLedger`. Each method is one atomic step under its lock.
use matterloop.Base.{
  ◌+◌, ◌-◌, String, List, [], ◌∷◌, ◌++◌, Option, none, some, Bool, true, false, not, eqb, elem, any,
  all, map, ◌==◌, ◌&&◌, ◌||◌, if◌then◌else◌,
}
use matterloop.Base.Dict.{Dict, get, put, remove, keys, values}
use matterloop.Base.Text.{strip, is_blank}
use matterloop.Policies.Usage.{
  UsageAmount, is_zero, zero_amount, add, subtract, cost_for, BudgetLimits, ScopeState, new_scope,
  UsageReservation, over_limit,
}

pub data UsageError : Type 0 where
  value_error reservation_error limit_exceeded key_error : UsageError

pub data Result (A : Type 0) : Type 0 where
  ok : A → Result A
  err : UsageError → Result A

pub record UsageLedger : Type 0 where
  pub default_limits : Option BudgetLimits
  pub scope_limits : Dict BudgetLimits
  pub states : Dict ScopeState
  pub reservations : Dict UsageReservation

abbrev pub Method : Type 0 → Type 0
Method A = UsageLedger → Result A × UsageLedger

-- `_normalize_scopes`, of several scopes
abbrev pub distinct : List String → Bool
distinct [] = true
distinct (s ∷ scopes) = not (elem s scopes) && distinct scopes

unfoldable pub normalize_scopes : List String → Option (List String)
normalize_scopes [] = none
normalize_scopes (s ∷ scopes) =
    if any is_blank (s ∷ scopes) || not (distinct (map strip (s ∷ scopes)))
    then none
    else some (map strip (s ∷ scopes))

-- `limits_for`, of a normalized scope
unfoldable pub limits_for : UsageLedger → String → Option BudgetLimits
limits_for l scope = elim (get l.scope_limits scope) [ none ↦ l.default_limits | some b ↦ some b ]

-- `self._states.get(scope, _ScopeState())`
unfoldable pub state_of : Dict ScopeState → String → ScopeState
state_of states scope = elim (get states scope) [ none ↦ new_scope | some s ↦ s ]

-- The request breaks a limit of the scope.
unfoldable pub refuses : UsageLedger → UsageAmount → String → Bool
unfolding limits_for state_of over_limit
refuses l amount scope = elim (limits_for l scope) [
  | none ↦ false
  | some b ↦ over_limit (state_of l.states scope) amount b
]

-- A change of the states of all scopes.
unfoldable pub write_all :
    (ScopeState → ScopeState) → List String → Dict ScopeState → Dict ScopeState
unfolding state_of
write_all f [] states = states
write_all f (scope ∷ scopes) states =
    write_all f scopes (put states scope (f (state_of states scope)))

-- `configure_scope`
unfoldable pub configure_scope : String → BudgetLimits → Method Unit
unfolding state_of over_limit
configure_scope scope b l =
    if is_blank scope
    then (err value_error, l)
    else if over_limit (state_of l.states (strip scope)) zero_amount b
    then (err limit_exceeded, l)
    else (ok tt, record l { scope_limits = put l.scope_limits (strip scope) b })

abbrev pub reserve_in : UsageAmount → ScopeState → ScopeState
unfolding add
reserve_in amount s = record s {
  reserved = add s.reserved amount;
  active_model_calls = s.active_model_calls + amount.model_calls;
}

abbrev pub is_some {ℓ} : {A : Type ℓ} → Option A → Bool
is_some none = false
is_some (some a) = true

-- `reserve`, with the identifier that is given or made.
unfoldable pub reserve : List String → UsageAmount → String → Method UsageReservation
unfolding normalize_scopes is_zero refuses write_all
reserve scopes amount id l = elim (normalize_scopes scopes) [
  | none ↦ (err value_error, l)
  | some normalized ↦
      if is_zero amount || is_blank id
      then (err value_error, l)
      else if is_some (get l.reservations id)
      then (err reservation_error, l)
      else if any (refuses l amount) normalized
      then (err limit_exceeded, l)
      else (let r : UsageReservation = record {
        reservation_id = id;
        scopes = normalized;
        amount = amount;
      } in
          (
            ok r,
            record l {
              states = write_all (reserve_in amount) normalized l.states;
              reservations = put l.reservations id r;
            },
          ))
]

-- Two amounts are equal; the order of their costs does not matter.
unfoldable pub same_amount : UsageAmount → UsageAmount → Bool
unfolding cost_for
same_amount a b =
    eqb a.model_calls b.model_calls
    && eqb a.input_tokens b.input_tokens
    && eqb a.output_tokens b.output_tokens
    && eqb a.total_tokens b.total_tokens
    && eqb a.cache_hit_tokens b.cache_hit_tokens
    && eqb a.cache_miss_tokens b.cache_miss_tokens
    && eqb a.reasoning_tokens b.reasoning_tokens
    && eqb a.tool_calls b.tool_calls
    && eqb a.agent_tasks b.agent_tasks
    && eqb a.attempts b.attempts
    && all (λ c. eqb (cost_for a c) (cost_for b c)) (keys a.costs_micros ++ keys b.costs_micros)

abbrev pub same_scopes : List String → List String → Bool
same_scopes [] [] = true
same_scopes (a ∷ as_) (b ∷ bs) = a == b && same_scopes as_ bs
same_scopes _ _ = false

-- `_require_reservation`
unfoldable pub require_reservation : UsageReservation → UsageLedger → Option UsageReservation
unfolding same_amount
require_reservation r l = elim (get l.reservations r.reservation_id) [
  | none ↦ none
  | some stored ↦
      if stored.reservation_id == r.reservation_id
        && same_scopes stored.scopes r.scopes
        && same_amount stored.amount r.amount
      then some stored
      else none
]

-- A scope's share of the settlement of a reservation; the difference may be a ValueError.
unfoldable pub settle : UsageAmount → UsageAmount → ScopeState → Option ScopeState
unfolding subtract add
settle amount actual s = elim (subtract s.reserved amount) [
  | none ↦ none
  | some rest ↦ some (record {
    committed = add s.committed actual;
    reserved = rest;
    active_model_calls = s.active_model_calls - amount.model_calls;
  })
]

unfoldable pub settle_all :
    (ScopeState → Option ScopeState) → List String → Dict ScopeState → Result Unit × Dict ScopeState
settle_all f [] states = (ok tt, states)
settle_all f (scope ∷ scopes) states = elim (get states scope) [
  | none ↦ (err key_error, states)
  | some s ↦ elim (f s) [
    | none ↦ (err value_error, states)
    | some s' ↦ settle_all f scopes (put states scope s')
  ]
]

abbrev pub actual_amount : UsageReservation → Option UsageAmount → UsageAmount
actual_amount r none = r.amount
actual_amount r (some a) = a

-- `commit`, with the actual amount or the reserved one.
unfoldable pub commit : UsageReservation → Option UsageAmount → Method Unit
unfolding require_reservation settle settle_all refuses
commit r actual l = elim (require_reservation r l) [
  | none ↦ (err reservation_error, l)
  | some stored ↦
      let (result, states) =
        settle_all (settle stored.amount (actual_amount r actual)) stored.scopes l.states in
      elim result [
        | err e ↦ (err e, record l { states = states })
        | ok _ ↦
            let l' : UsageLedger = record l {
              states = states;
              reservations = remove l.reservations stored.reservation_id;
            } in
            if any (refuses l' zero_amount) stored.scopes
            then (err limit_exceeded, l')
            else (ok tt, l')
      ]
]

-- `rollback`
unfoldable pub release : UsageAmount → ScopeState → Option ScopeState
unfolding subtract
release amount s = elim (subtract s.reserved amount) [
  | none ↦ none
  | some rest ↦
      some (record s {
        reserved = rest;
        active_model_calls = s.active_model_calls - amount.model_calls;
      })
]

unfoldable pub rollback : UsageReservation → Method Unit
unfolding require_reservation release settle_all
rollback r l = elim (require_reservation r l) [
  | none ↦ (err reservation_error, l)
  | some stored ↦
      let (result, states) = settle_all (release stored.amount) stored.scopes l.states in
      elim result [
        | err e ↦ (err e, record l { states = states })
        | ok _ ↦ (
          ok tt,
          record l { states = states; reservations = remove l.reservations stored.reservation_id },
        )
      ]
]

-- `consume`
unfoldable pub consume : List String → UsageAmount → Method Unit
unfolding normalize_scopes is_zero refuses write_all add
consume scopes amount l = elim (normalize_scopes scopes) [
  | none ↦ (err value_error, l)
  | some normalized ↦
      if is_zero amount
      then (ok tt, l)
      else if any (refuses l amount) normalized
      then (err limit_exceeded, l)
      else (
        ok tt,
        record l {
          states =
              write_all (λ s. record s { committed = add s.committed amount }) normalized l.states;
        },
      )
]

-- `clear`
unfoldable pub clear : String → Method Unit
unfolding state_of
clear scope l =
    if is_blank scope
    then (err value_error, l)
    else if not (eqb (state_of l.states (strip scope)).active_model_calls 0)
    then (err reservation_error, l)
    else if any (λ (r : UsageReservation). elem (strip scope) r.scopes) (values l.reservations)
    then (err reservation_error, l)
    else (ok tt, record l { states = remove l.states (strip scope) })
