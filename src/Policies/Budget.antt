-- ===== src/Policies/Budget.antt =====
-- matterloop-policies/src/python/matterloop_policies/budget.py: `BudgetPolicy`, the test of a run's budget
-- between two cycles, and what it says of the ledger's own test.
mod Tests
use matterloop.Base.{
  ◌≡◌, refl, ℕ, suc, ◌+◌, ◌≤◌, String, List, [], ◌∷◌, Option, none, some, Bool, true, false, ltb,
  ◌&&◌, ◌||◌, arith, Bool-cases, inl, inr, if◌then◌else◌,
}
use matterloop.Base.Text.{strip, is_blank}
use matterloop.Policies.Usage.{
  UsageAmount, cost_for, add, ScopeState, BudgetLimits, projected_values, limit_values, exceeds,
  over_limit,
}
use matterloop.Policies.Usage.Ledger.{UsageLedger, Result, ok, err, limits_for, state_of, refuses}
use matterloop.Policies.Usage.Ledger
use matterloop.Policies.Usage.Sums.{Below, cost_for-add}

-- What is committed and reserved, in the order of the limits.
abbrev pub used_values : ScopeState → String → List ℕ
used_values s currency =
    (s.committed.model_calls + s.reserved.model_calls)
    ∷ s.active_model_calls
    ∷ (s.committed.input_tokens + s.reserved.input_tokens)
    ∷ (s.committed.output_tokens + s.reserved.output_tokens)
    ∷ (s.committed.total_tokens + s.reserved.total_tokens)
    ∷ (s.committed.cache_hit_tokens + s.reserved.cache_hit_tokens)
    ∷ (s.committed.cache_miss_tokens + s.reserved.cache_miss_tokens)
    ∷ (s.committed.reasoning_tokens + s.reserved.reasoning_tokens)
    ∷ (s.committed.tool_calls + s.reserved.tool_calls)
    ∷ (s.committed.agent_tasks + s.reserved.agent_tasks)
    ∷ (s.committed.attempts + s.reserved.attempts)
    ∷ (cost_for s.committed currency + cost_for s.reserved currency)
    ∷ []

-- `all(limit is None or value < limit ...)`
unfoldable pub within : List ℕ → List (Option ℕ) → Bool
within [] limits = true
within (v ∷ vs) [] = true
within (v ∷ vs) (none ∷ limits) = within vs limits
within (v ∷ vs) (some l ∷ limits) = ltb v l && within vs limits

-- `can_continue`, of a run
unfoldable pub can_continue : BudgetLimits → UsageLedger → String → Result Bool
unfolding state_of within
can_continue b l run_id =
    if is_blank run_id
    then err Ledger.value_error
    else ok
        (within (used_values (state_of l.states (strip run_id)) b.cost_currency) (limit_values b))

abbrev map_suc : List ℕ → List ℕ
map_suc [] = []
map_suc (v ∷ vs) = suc v ∷ map_suc vs

ok_same : {A : Type 0} (a b : A) → ok a ≡ ok b → a ≡ b
ok_same a b e = cc

within-exceeds :
    (vs ws : List ℕ) (limits : List (Option ℕ))
    → Below ws (map_suc vs)
    → within vs limits ≡ true
    → exceeds ws limits ≡ false
unfolding within exceeds
within-exceeds vs [] limits b h = refl
within-exceeds [] (w ∷ ws) limits b h = cc
within-exceeds (v ∷ vs) (w ∷ ws) [] b h = refl
within-exceeds (v ∷ vs) (w ∷ ws) (none ∷ limits) b h = within-exceeds vs ws limits (b.1) h
within-exceeds (v ∷ vs) (w ∷ ws) (some l ∷ limits) b h =
    let rest : exceeds ws limits ≡ false = within-exceeds vs ws limits (b.1) (ground (arith, h)) in
    ground (arith, b.0, h, rest)

-- At most one of every resource.
pub record IsUnit (a : UsageAmount) (currency : String) : Type 0 where
  pub model_calls : a.model_calls ≤ 1
  pub input_tokens : a.input_tokens ≤ 1
  pub output_tokens : a.output_tokens ≤ 1
  pub total_tokens : a.total_tokens ≤ 1
  pub cache_hit_tokens : a.cache_hit_tokens ≤ 1
  pub cache_miss_tokens : a.cache_miss_tokens ≤ 1
  pub reasoning_tokens : a.reasoning_tokens ≤ 1
  pub tool_calls : a.tool_calls ≤ 1
  pub agent_tasks : a.agent_tasks ≤ 1
  pub attempts : a.attempts ≤ 1
  pub cost : cost_for a currency ≤ 1

over_limit-unit :
    (s : ScopeState) (a : UsageAmount) (b : BudgetLimits)
    → IsUnit a b.cost_currency
    → within (used_values s b.cost_currency) (limit_values b) ≡ true
    → over_limit s a b ≡ false
unfolding over_limit projected_values add
over_limit-unit s a b u h =
    let cost : cost_for (add (add s.committed s.reserved) a) b.cost_currency
        ≤ suc (cost_for s.committed b.cost_currency + cost_for s.reserved b.cost_currency) =
      omega (
        arith,
        u.cost,
        cost_for-add (add s.committed s.reserved) a b.cost_currency,
        cost_for-add s.committed s.reserved b.cost_currency,
      ) in
    within-exceeds (used_values s b.cost_currency) (projected_values s a b.cost_currency)
      (limit_values b)
      (
        omega (arith, u.model_calls),
        (
          omega (arith, u.model_calls),
          (
            omega (arith, u.input_tokens),
            (
              omega (arith, u.output_tokens),
              (
                omega (arith, u.total_tokens),
                (
                  omega (arith, u.cache_hit_tokens),
                  (
                    omega (arith, u.cache_miss_tokens),
                    (
                      omega (arith, u.reasoning_tokens),
                      (
                        omega (arith, u.tool_calls),
                        (omega (arith, u.agent_tasks), (omega (arith, u.attempts), (cost, tt))),
                      ),
                    ),
                  ),
                ),
              ),
            ),
          ),
        ),
      )
      h

-- Where the budget lets a run go on, and the scope of the run has the same limits in the ledger, the
-- ledger does not refuse an amount of at most one of every resource and of the limited currency.
pub can_continue_accepts :
    (b : BudgetLimits) (l : UsageLedger) (run_id : String) (a : UsageAmount)
    → can_continue b l run_id ≡ ok true
    → limits_for l (strip run_id) ≡ some b
    → IsUnit a b.cost_currency
    → refuses l a (strip run_id) ≡ false
unfolding can_continue refuses
can_continue_accepts b l run_id a h e u = elim (Bool-cases (is_blank run_id)) [
  | inl y ↦ cc (rw (y, can_continue) at h)
  | inr n ↦
      let same : ok (
            within (used_values (state_of l.states (strip run_id)) b.cost_currency)
              (limit_values b))
          ≡ ok true =
        rw (n, can_continue) at h in
      rw (e, refuses) (over_limit-unit (state_of l.states (strip run_id)) a b u (ok_same _ _ same))
]
