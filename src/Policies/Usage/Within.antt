-- ===== src/Policies/Usage/Within.antt =====
-- usage.py: no sequence of calls brings a scope over its limits, unless a settlement says so.
use matterloop.Base.{
  ◌≡◌, refl, String, List, [], ◌∷◌, some, Bool, true, false, not, elem, any, map, arith, ◌==◌, ◌||◌,
  eq_iff, eq_self, Bool-cases, inl, inr, if◌then◌else◌,
}
use matterloop.Base.Dict.{Dict, get, put, get-put}
use matterloop.Base.Text.{strip, is_blank}
use matterloop.Policies.Usage.{
  UsageAmount, zero_amount, BudgetLimits, ScopeState, UsageReservation, over_limit,
}
use matterloop.Policies.Usage.Ledger.{
  UsageLedger, distinct, normalize_scopes, limits_for, state_of, refuses, write_all,
}

-- Every scope with limits passes their test as it is.
pub record IsTested (l : UsageLedger) : Type 0 where
  pub at :
      (scope : String) (b : BudgetLimits) (s : ScopeState)
      → limits_for l scope ≡ some b
      → get l.states scope ≡ some s
      → over_limit s zero_amount b ≡ false

-- `normalize_scopes` gives distinct scopes.
pub normalize_scopes_distinct :
    (scopes normalized : List String)
    → normalize_scopes scopes ≡ some normalized
    → distinct normalized ≡ true
unfolding normalize_scopes
normalize_scopes_distinct [] normalized e = cc
normalize_scopes_distinct (s ∷ scopes) normalized e =
    elim (Bool-cases (any is_blank (s ∷ scopes) || not (distinct (map strip (s ∷ scopes))))) [
      | inl y ↦ cc (rw y at e)
      | inr n ↦
          let same : map strip (s ∷ scopes) ≡ normalized = cc (rw n at e) in
          rw (← same) (ground (arith, n))
    ]

-- Each of the scopes is written once.
pub get-write_all :
    (f : ScopeState → ScopeState) (scopes : List String) (states : Dict ScopeState) (k : String)
    → distinct scopes ≡ true
    → get (write_all f scopes states) k
      ≡ (if elem k scopes then some (f (state_of states k)) else get states k)
unfolding write_all state_of
get-write_all f [] states k u = refl
get-write_all f (s ∷ scopes) states k u = elim (Bool-cases (s == k)) [
  | inl y ↦ rw (← (eq_iff s k).0 y) (
      ground (
        arith,
        get-write_all f scopes (put states s (f (state_of states s))) s,
        u,
        eq_self s,
        get-put states s s (f (state_of states s)),
      ))
  | inr n ↦ ground (
    arith,
    get-write_all f scopes (put states s (f (state_of states s))) k,
    u,
    n,
    eq_iff k s,
    eq_iff s k,
    get-put states s k (f (state_of states s)),
  )
]

pub none_refuses :
    (f : String → Bool) (scopes : List String) (k : String)
    → any f scopes ≡ false
    → elem k scopes ≡ true
    → f k ≡ false
none_refuses f [] k h m = cc
none_refuses f (s ∷ scopes) k h m = elim (Bool-cases (k == s)) [
  | inl y ↦ rw ((eq_iff k s).0 y) (ground arith)
  | inr n ↦ none_refuses f scopes k (ground arith) (ground (arith, m, n))
]

pub accepted :
    (l : UsageLedger) (amount : UsageAmount) (k : String) (b : BudgetLimits)
    → refuses l amount k ≡ false
    → limits_for l k ≡ some b
    → over_limit (state_of l.states k) amount b ≡ false
unfolding refuses
accepted l amount k b h e = rw (e, refuses) at h

-- Scopes that pass the test with the amount, and are written by a change that the test allows.
pub IsTested-write_all :
    (l : UsageLedger) (amount : UsageAmount) (scopes : List String) (f : ScopeState → ScopeState)
    (reservations : Dict UsageReservation)
    → IsTested l
    → distinct scopes ≡ true
    → any (refuses l amount) scopes ≡ false
    → ((s : ScopeState) (b : BudgetLimits)
        → over_limit s amount b ≡ false
        → over_limit (f s) zero_amount b ≡ false)
    → IsTested (record l { states = write_all f scopes l.states; reservations = reservations })
unfolding limits_for
IsTested-write_all l amount scopes f reservations w u h allowed = record {
  at = λ k b s q e. elim (Bool-cases (elem k scopes)) [
    | inl y ↦
        let same : f (state_of l.states k) ≡ s =
          cc (rw (get-write_all f scopes l.states k u, y) at e) in
        rw (← same) (
          allowed (state_of l.states k) b
            (accepted l amount k b (none_refuses (refuses l amount) scopes k h y) q))
    | inr n ↦ w.at k b s q (rw (get-write_all f scopes l.states k u, n) at e)
  ];
}
