-- ===== src/Policies/Usage/Calls.antt =====
-- usage.py: every method of `UsageLedger` keeps the scopes within their limits, and so does any sequence
-- of calls in which no settlement is refused.
use matterloop.Base.{
  ◌≡◌, sym, ap, ◌∙◌, String, List, [], ◌∷◌, Option, some, Bool, true, false, not, eqb, elem, any,
  ◌&&◌, arith, ◌==◌, ◌||◌, eq_iff, Bool-cases, Option-cases, inl, inr,
}
use matterloop.Base.Dict.{Dict, get, remove, get-put, get-remove, values}
use matterloop.Base.Text.{strip, is_blank}
use matterloop.Policies.Usage.{
  UsageAmount, zero_amount, is_zero, add, BudgetLimits, ScopeState, UsageReservation, over_limit,
}
use matterloop.Policies.Usage.Ledger.{
  UsageLedger, UsageError, Result, ok, err, normalize_scopes, limits_for, state_of, refuses,
  write_all, reserve_in, settle_all, settle, release, require_reservation, is_some,
}
use matterloop.Policies.Usage.Ledger
use matterloop.Policies.Usage.Limits.{over_limit-reserve, over_limit-consume}
use matterloop.Policies.Usage.Kept.{IsWithin, IsTested→IsWithin, IsWithin→IsTested}
use matterloop.Policies.Usage.Within.{IsTested, normalize_scopes_distinct, IsTested-write_all}
use matterloop.Policies.Usage.Settle.{state_of-found, IsTested-rollback, commits, IsTested-commit}

IsTested-reserve :
    (scopes : List String) (amount : UsageAmount) (id : String) (l : UsageLedger)
    → IsTested l
    → IsTested (Ledger.reserve scopes amount id l).1
unfolding Ledger.reserve
IsTested-reserve scopes amount id l w = elim (Option-cases (normalize_scopes scopes)) [
  | inl n ↦ rw (n, Ledger.reserve) w
  | inr (normalized, q) ↦ elim (Bool-cases (is_zero amount || is_blank id)) [
    | inl y ↦ rw (q, y, Ledger.reserve) w
    | inr n ↦ elim (Bool-cases (is_some (get l.reservations id))) [
      | inl y ↦ rw (q, n, y, Ledger.reserve) w
      | inr m ↦ elim (Bool-cases (any (refuses l amount) normalized)) [
        | inl y ↦ rw (q, n, m, y, Ledger.reserve) w
        | inr h ↦
            rw (q, n, m, h, Ledger.reserve)
              (IsTested-write_all l amount normalized (reserve_in amount) _ w
                (normalize_scopes_distinct scopes normalized q) h
                (λ s b x. over_limit-reserve s amount b x))
      ]
    ]
  ]
]

IsTested-consume :
    (scopes : List String) (amount : UsageAmount) (l : UsageLedger)
    → IsTested l
    → IsTested (Ledger.consume scopes amount l).1
unfolding Ledger.consume
IsTested-consume scopes amount l w = elim (Option-cases (normalize_scopes scopes)) [
  | inl n ↦ rw (n, Ledger.consume) w
  | inr (normalized, q) ↦ elim (Bool-cases (is_zero amount)) [
    | inl y ↦ rw (q, y, Ledger.consume) w
    | inr n ↦ elim (Bool-cases (any (refuses l amount) normalized)) [
      | inl y ↦ rw (q, n, y, Ledger.consume) w
      | inr h ↦
          rw (q, n, h, Ledger.consume)
            (IsTested-write_all l amount normalized
              (λ s. record s { committed = add s.committed amount }) l.reservations w
              (normalize_scopes_distinct scopes normalized q) h
              (λ s b x. over_limit-consume s amount b x))
    ]
  ]
]

tested :
    (states : Dict ScopeState) (j k : String) (s : ScopeState) (b : BudgetLimits)
    → j ≡ k
    → get states k ≡ some s
    → over_limit (state_of states j) zero_amount b ≡ false
    → over_limit s zero_amount b ≡ false
tested states j k s b same e h =
    let found : state_of states j ≡ s = rw same (state_of-found states k s e) in rw (← found) h

IsTested-configure_scope :
    (scope : String) (b : BudgetLimits) (l : UsageLedger)
    → IsTested l
    → IsTested (Ledger.configure_scope scope b l).1
unfolding Ledger.configure_scope limits_for
IsTested-configure_scope scope b l w = elim (Bool-cases (is_blank scope)) [
  | inl y ↦ rw (y, Ledger.configure_scope) w
  | inr n ↦ elim (Bool-cases (over_limit (state_of l.states (strip scope)) zero_amount b)) [
    | inl y ↦ rw (n, y, Ledger.configure_scope) w
    | inr h ↦
        rw (n, h, Ledger.configure_scope)
          (record {
            at = λ k c s q e. elim (Bool-cases (strip scope == k)) [
              | inl y ↦
                  let found : some b ≡ some c =
                    ground (arith, q, get-put l.scope_limits (strip scope) k b, y) in
                  let same : b ≡ c = cc in
                  sym (ap (λ (a : BudgetLimits). over_limit s zero_amount a) same)
                  ∙ tested l.states (strip scope) k s b ((eq_iff (strip scope) k).0 y) e h
              | inr m ↦
                  w.at k c s (ground (arith, q, get-put l.scope_limits (strip scope) k b, m)) e
            ];
          })
  ]
]

IsTested-remove :
    (l : UsageLedger) (k : String) → IsTested l → IsTested (record l { states = remove l.states k })
unfolding limits_for
IsTested-remove l k w = record {
  at = λ j b s q e. elim (Bool-cases (k == j)) [
    | inl y ↦ cc (rw (get-remove, y) at e)
    | inr n ↦ w.at j b s q (rw (get-remove, n) at e)
  ];
}

IsTested-clear : (scope : String) (l : UsageLedger) → IsTested l → IsTested (Ledger.clear scope l).1
unfolding Ledger.clear
IsTested-clear scope l w = elim (Bool-cases (is_blank scope)) [
  | inl y ↦ rw (y, Ledger.clear) w
  | inr n ↦ elim (Bool-cases (not (eqb (state_of l.states (strip scope)).active_model_calls 0))) [
    | inl y ↦ rw (n, y, Ledger.clear) w
    | inr m ↦
        elim (Bool-cases
          (any (λ (r : UsageReservation). elem (strip scope) r.scopes) (values l.reservations))) [
            | inl y ↦ rw (n, m, y, Ledger.clear) w
            | inr h ↦ rw (n, m, h, Ledger.clear) (IsTested-remove l (strip scope) w)
          ]
  ]
]

-- A call of a method that changes the ledger.
pub data Action : Type 0 where
  configure_scope : String → BudgetLimits → Action
  reserve : List String → UsageAmount → String → Action
  commit : UsageReservation → Option UsageAmount → Action
  rollback : UsageReservation → Action
  consume : List String → UsageAmount → Action
  clear : String → Action

unfoldable pub step : Action → UsageLedger → UsageLedger
step (configure_scope scope b) l = (Ledger.configure_scope scope b l).1
step (reserve scopes amount id) l = (Ledger.reserve scopes amount id l).1
step (commit r actual) l = (Ledger.commit r actual l).1
step (rollback r) l = (Ledger.rollback r l).1
step (consume scopes amount) l = (Ledger.consume scopes amount l).1
step (clear scope) l = (Ledger.clear scope l).1

unfoldable pub run : List Action → UsageLedger → UsageLedger
run [] l = l
run (a ∷ rest) l = run rest (step a l)

unfoldable pub well : Action → UsageLedger → Bool
unfolding commits
well (commit r actual) l = commits r actual l
well a l = true

-- No settlement of an open reservation raises.
unfoldable pub all_commit : List Action → UsageLedger → Bool
unfolding well step
all_commit [] l = true
all_commit (a ∷ rest) l = well a l && all_commit rest (step a l)

IsTested-step : (a : Action) (l : UsageLedger) → well a l ≡ true → IsTested l → IsTested (step a l)
unfolding step well
IsTested-step (configure_scope scope b) l fine w = IsTested-configure_scope scope b l w
IsTested-step (reserve scopes amount id) l fine w = IsTested-reserve scopes amount id l w
IsTested-step (commit r actual) l fine w = IsTested-commit r actual l w fine
IsTested-step (rollback r) l fine w = IsTested-rollback r l w
IsTested-step (consume scopes amount) l fine w = IsTested-consume scopes amount l w
IsTested-step (clear scope) l fine w = IsTested-clear scope l w

IsTested-run :
    (actions : List Action) (l : UsageLedger)
    → all_commit actions l ≡ true
    → IsTested l
    → IsTested (run actions l)
unfolding run all_commit
IsTested-run [] l fine w = w
IsTested-run (a ∷ rest) l fine w = elim (Bool-cases (well a l)) [
  | inl y ↦ IsTested-run rest (step a l) (rw y at fine) (IsTested-step a l y w)
  | inr n ↦ cc (rw n at fine)
]

-- From a ledger in which every scope keeps its limits, any sequence of calls in which no settlement of
-- an open reservation raises leads to one: for every resource, what is committed and reserved in a
-- scope with limits does not exceed its limit, nor do the active model calls.
pub IsWithin-run :
    (actions : List Action) (l : UsageLedger)
    → all_commit actions l ≡ true
    → IsWithin l
    → IsWithin (run actions l)
IsWithin-run actions l fine w =
    IsTested→IsWithin (run actions l) (IsTested-run actions l fine (IsWithin→IsTested l w))
