-- ===== src/Policies/Usage/Undo.antt =====
-- usage.py: `rollback` of a reservation takes back what `reserve` has written.
use matterloop.Base.{
  ◌≡◌, refl, ◌+◌, ◌-◌, String, List, [], ◌∷◌, ◌++◌, Option, some, Bool, true, false, eqb, leb, elem,
  all, arith, ◌==◌, eq_iff, eq_self, Bool-cases, inl, inr,
}
use matterloop.Base.Dict.{Dict, get, put, keys, get-put}
use matterloop.Policies.Usage.{
  UsageAmount, cost_for, currencies, add, fits, difference, subtract, ScopeState,
}
use matterloop.Policies.Usage.Ledger.{ok, distinct, reserve_in, settle_all, release, same_amount}
use matterloop.Policies.Usage.Sums.{cost_for-add, amount_at-costs, absent_key, elem-append}
use matterloop.Policies.Usage.Settle.{settle_all-other}

all_holds : (f : String → Bool) (cs : List String) → ((c : String) → f c ≡ true) → all f cs ≡ true
all_holds f [] h = refl
all_holds f (c ∷ cs) h = ground (arith, h c, all_holds f cs h)

-- Two amounts that agree on every resource and every cost.
pub record Agree (u v : UsageAmount) : Type 0 where
  pub model_calls : u.model_calls ≡ v.model_calls
  pub input_tokens : u.input_tokens ≡ v.input_tokens
  pub output_tokens : u.output_tokens ≡ v.output_tokens
  pub total_tokens : u.total_tokens ≡ v.total_tokens
  pub cache_hit_tokens : u.cache_hit_tokens ≡ v.cache_hit_tokens
  pub cache_miss_tokens : u.cache_miss_tokens ≡ v.cache_miss_tokens
  pub reasoning_tokens : u.reasoning_tokens ≡ v.reasoning_tokens
  pub tool_calls : u.tool_calls ≡ v.tool_calls
  pub agent_tasks : u.agent_tasks ≡ v.agent_tasks
  pub attempts : u.attempts ≡ v.attempts
  pub costs : (c : String) → cost_for u c ≡ cost_for v c

pub record SameUsage (s t : ScopeState) : Type 0 where
  pub committed : t.committed ≡ s.committed
  pub active : t.active_model_calls ≡ s.active_model_calls
  pub reserved : Agree t.reserved s.reserved

cost_for-difference_exact :
    (l r : UsageAmount) (c : String) → cost_for (difference l r) c ≡ cost_for l c - cost_for r c
unfolding cost_for difference
cost_for-difference_exact l r c =
    let diff = amount_at-costs (λ c. cost_for l c - cost_for r c) (currencies l r) c in
    elim (Bool-cases (elem c (currencies l r))) [
      | inl y ↦ ground (arith, diff, y)
      | inr n ↦ ground (
        arith,
        diff,
        n,
        absent_key l.costs_micros c,
        absent_key r.costs_micros c,
        elem-append c (keys l.costs_micros) (keys r.costs_micros),
      )
    ]

Agree-difference : (u a : UsageAmount) → Agree (difference (add u a) a) u
unfolding difference add
Agree-difference u a = record {
  model_calls = omega arith;
  input_tokens = omega arith;
  output_tokens = omega arith;
  total_tokens = omega arith;
  cache_hit_tokens = omega arith;
  cache_miss_tokens = omega arith;
  reasoning_tokens = omega arith;
  tool_calls = omega arith;
  agent_tasks = omega arith;
  attempts = omega arith;
  costs = λ c. omega (arith, cost_for-difference_exact (add u a) a c, cost_for-add u a c);
}

sum_fits : (u a : UsageAmount) → fits (add u a) a ≡ true
unfolding fits add
sum_fits u a =
    let cost =
      all_holds (λ c. leb (cost_for a c) (cost_for (add u a) c)) (currencies (add u a) a)
        (λ c. ground (arith, cost_for-add u a c)) in
    ground (arith, cost)

pub same_amount_self : (a : UsageAmount) → same_amount a a ≡ true
unfolding same_amount
same_amount_self a =
    let cost =
      all_holds (λ c. eqb (cost_for a c) (cost_for a c))
        (keys a.costs_micros ++ keys a.costs_micros) (λ c. ground arith) in
    ground (arith, cost)

-- Settling distinct scopes whose change is known.
module _ (f : ScopeState → Option ScopeState) where
  settle_all-step :
      (c : String) (scopes : List String) (states : Dict ScopeState) (s t : ScopeState)
      → get states c ≡ some s
      → f s ≡ some t
      → settle_all f (c ∷ scopes) states ≡ settle_all f scopes (put states c t)
  unfolding settle_all
  settle_all-step c scopes states s t e q = rw (e, q, settle_all) refl

  elsewhere :
      (c k : String) (states : Dict ScopeState) (s t : ScopeState)
      → (c == k) ≡ false
      → get states k ≡ some s
      → get (put states c t) k ≡ some s
  elsewhere c k states s t n e = rw (get-put, n) e

  not_first :
      (c k : String) (scopes : List String)
      → elem c scopes ≡ false
      → elem k scopes ≡ true
      → (c == k) ≡ false
  not_first c k scopes fresh m = ground (arith, eq_iff c k, fresh, m)

  unfoldable pub Changes : List String → Dict ScopeState → Type 0
  Changes scopes states =
      (k : String)
      → elem k scopes ≡ true
      → (s : ScopeState) × (t : ScopeState) × (get states k ≡ some s) × (f s ≡ some t)

  Changes-rest :
      (c : String) (scopes : List String) (states : Dict ScopeState) (t : ScopeState)
      → elem c scopes ≡ false
      → Changes (c ∷ scopes) states
      → Changes scopes (put states c t)
  unfolding Changes
  Changes-rest c scopes states t fresh h k m =
      let (s', t', e', q') = h k (ground (arith, m)) in
      (s', t', elsewhere c k states s' t (not_first c k scopes fresh m) e', q')

  pub settle_all-returns :
      (scopes : List String) (states : Dict ScopeState)
      → distinct scopes ≡ true
      → Changes scopes states
      → (settle_all f scopes states).0 ≡ ok tt
  unfolding settle_all Changes
  settle_all-returns [] states u h = refl
  settle_all-returns (c ∷ scopes) states u h =
      let (s, t, e, q) = h c (ground (arith, eq_self c)) in
      rw (settle_all-step c scopes states s t e q) (
        settle_all-returns scopes (put states c t) (ground (arith, u))
          (Changes-rest c scopes states t (ground (arith, u)) h))

  pub settle_all-at :
      (scopes : List String) (states : Dict ScopeState)
      → distinct scopes ≡ true
      → Changes scopes states
      → (k : String) → elem k scopes ≡ true
      → (s : ScopeState) × (t : ScopeState) × (get states k ≡ some s)
        × (f s ≡ some t)
        × (get (settle_all f scopes states).1 k ≡ some t)
  unfolding Changes
  settle_all-at [] states u h k m = cc
  settle_all-at (c ∷ scopes) states u h k m =
      let (s, t, e, q) = h c (ground (arith, eq_self c)) in
      let fresh : elem c scopes ≡ false = ground (arith, u) in
      elim (Bool-cases (c == k)) [
        | inl z ↦
            let at : get (settle_all f scopes (put states c t)).1 c ≡ some t =
              rw
                (
                  settle_all-other f scopes (put states c t) c fresh,
                  get-put states c c t,
                  eq_self c,
                )
                refl in
            rw (← (eq_iff c k).0 z) (s, t, e, q, rw (settle_all-step c scopes states s t e q) at)
        | inr n ↦
            let (s', t', e', q', at) =
              settle_all-at scopes (put states c t) (ground (arith, u))
                (Changes-rest c scopes states t fresh h) k
                (ground (arith, m, n, eq_iff k c, eq_iff c k)) in
            (s', t', rw (get-put, n) at e', q', rw (settle_all-step c scopes states s t e q) at)
      ]

-- A scope after the reservation, and after its rollback.
abbrev pub released : UsageAmount → ScopeState → ScopeState
released amount s = record s {
  reserved = difference (add s.reserved amount) amount;
  active_model_calls = s.active_model_calls + amount.model_calls - amount.model_calls;
}

pub release-reserve :
    (amount : UsageAmount) (s : ScopeState)
    → release amount (reserve_in amount s) ≡ some (released amount s)
unfolding release subtract add
release-reserve amount s = rw (sum_fits s.reserved amount, release, subtract) refl

pub SameUsage-released : (amount : UsageAmount) (s : ScopeState) → SameUsage s (released amount s)
SameUsage-released amount s = record {
  committed = refl;
  active = omega arith;
  reserved = Agree-difference s.reserved amount;
}

pub SameUsage-self : (s : ScopeState) → SameUsage s s
SameUsage-self s = record {
  committed = refl;
  active = refl;
  reserved = record {
    model_calls = refl;
    input_tokens = refl;
    output_tokens = refl;
    total_tokens = refl;
    cache_hit_tokens = refl;
    cache_miss_tokens = refl;
    reasoning_tokens = refl;
    tool_calls = refl;
    agent_tasks = refl;
    attempts = refl;
    costs = λ c. refl;
  };
}
