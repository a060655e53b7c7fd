-- ===== src/Policies/Usage/Limits.antt =====
-- usage.py: what a change of one scope does to the test of its limits (`_check_limits`).
use matterloop.Base.{
  ◌≡◌, refl, ℕ, ◌+◌, ◌-◌, ◌≤◌, String, some, false, arith, Option-cases, inl, inr,
}
use matterloop.Base.Dict.{get}
use matterloop.Policies.Usage.{
  UsageAmount, amount_at, cost_for, zero_amount, add, difference, subtract, ScopeState,
  BudgetLimits, projected_values, limit_values, over_limit,
}
use matterloop.Policies.Usage.Ledger.{reserve_in, release}
use matterloop.Policies.Usage.Sums.{
  cost_for-add, cost_for-difference, subtract-difference, exceeds-Below,
}

-- What a reserved amount makes of the cost is what the test has computed.
cost_for-reserved :
    (c r a z : UsageAmount) (k : String)
    → cost_for z k ≡ 0
    → cost_for (add (add c (add r a)) z) k ≡ cost_for (add (add c r) a) k
cost_for-reserved c r a z k e = omega (
  arith,
  cost_for-add (add c (add r a)) z k,
  cost_for-add c (add r a) k,
  cost_for-add r a k,
  cost_for-add (add c r) a k,
  cost_for-add c r k,
  e,
)

cost_for-consumed :
    (c r a z : UsageAmount) (k : String)
    → cost_for z k ≡ 0
    → cost_for (add (add (add c a) r) z) k ≡ cost_for (add (add c r) a) k
cost_for-consumed c r a z k e = omega (
  arith,
  cost_for-add (add (add c a) r) z k,
  cost_for-add (add c a) r k,
  cost_for-add c a k,
  cost_for-add (add c r) a k,
  cost_for-add c r k,
  e,
)

cost_for-released :
    (c r a z : UsageAmount) (k : String)
    → cost_for (add (add c (difference r a)) z) k ≤ cost_for (add (add c r) z) k
cost_for-released c r a z k = omega (
  arith,
  cost_for-add (add c (difference r a)) z k,
  cost_for-add c (difference r a) k,
  cost_for-add (add c r) z k,
  cost_for-add c r k,
  cost_for-difference r a k,
)

pub cost_for-zero : (k : String) → cost_for zero_amount k ≡ 0
unfolding cost_for amount_at get
cost_for-zero k = refl

-- The values of the test after a change are no greater than those that it has compared.
module _ (s s' : ScopeState) (a a' : UsageAmount) (b : BudgetLimits)
    (cost : cost_for (add (add s'.committed s'.reserved) a') b.cost_currency
      ≤ cost_for (add (add s.committed s.reserved) a) b.cost_currency) where
  abbrev Shrinks : (UsageAmount → ℕ) → Type 0
  Shrinks f = f s'.committed + f s'.reserved + f a' ≤ f s.committed + f s.reserved + f a

  pub over_limit-Shrinks :
      Shrinks (λ u. u.model_calls)
      → s'.active_model_calls + a'.model_calls ≤ s.active_model_calls + a.model_calls
      → Shrinks (λ u. u.input_tokens)
      → Shrinks (λ u. u.output_tokens)
      → Shrinks (λ u. u.total_tokens)
      → Shrinks (λ u. u.cache_hit_tokens)
      → Shrinks (λ u. u.cache_miss_tokens)
      → Shrinks (λ u. u.reasoning_tokens)
      → Shrinks (λ u. u.tool_calls)
      → Shrinks (λ u. u.agent_tasks)
      → Shrinks (λ u. u.attempts)
      → over_limit s a b ≡ false
      → over_limit s' a' b ≡ false
  unfolding over_limit projected_values add
  over_limit-Shrinks h1 h2 h3 h4 h5 h6 h7 h8 h9 h10 h11 h =
      exceeds-Below (projected_values s' a' b.cost_currency) (projected_values s a b.cost_currency)
        (limit_values b)
        (h1, (h2, (h3, (h4, (h5, (h6, (h7, (h8, (h9, (h10, (h11, (cost, tt)))))))))))) h

-- A reservation that passes the test leaves the scope within its limits.
pub over_limit-reserve :
    (s : ScopeState) (amount : UsageAmount) (b : BudgetLimits)
    → over_limit s amount b ≡ false
    → over_limit (reserve_in amount s) zero_amount b ≡ false
unfolding add
over_limit-reserve s amount b h =
    over_limit-Shrinks s (reserve_in amount s) amount zero_amount b
      (omega (
        arith,
        cost_for-reserved s.committed s.reserved amount zero_amount b.cost_currency
            (cost_for-zero b.cost_currency),
      ))
      (omega arith) (omega arith) (omega arith) (omega arith) (omega arith) (omega arith)
      (omega arith) (omega arith) (omega arith) (omega arith) (omega arith) h

-- So does an amount that is consumed at once.
pub over_limit-consume :
    (s : ScopeState) (amount : UsageAmount) (b : BudgetLimits)
    → over_limit s amount b ≡ false
    → over_limit (record s { committed = add s.committed amount }) zero_amount b ≡ false
unfolding add
over_limit-consume s amount b h =
    over_limit-Shrinks s (record s { committed = add s.committed amount }) amount zero_amount b
      (omega (
        arith,
        cost_for-consumed s.committed s.reserved amount zero_amount b.cost_currency
            (cost_for-zero b.cost_currency),
      ))
      (omega arith) (omega arith) (omega arith) (omega arith) (omega arith) (omega arith)
      (omega arith) (omega arith) (omega arith) (omega arith) (omega arith) h

-- A reservation that is given back only lowers the values.
pub over_limit-release :
    (s s' : ScopeState) (amount : UsageAmount) (b : BudgetLimits)
    → release amount s ≡ some s'
    → over_limit s zero_amount b ≡ false
    → over_limit s' zero_amount b ≡ false
unfolding release difference
over_limit-release s s' amount b e h = elim (Option-cases (subtract s.reserved amount)) [
  | inl n ↦ cc (rw (n, release) at e)
  | inr (rest, q) ↦
      let same : record s {
        reserved = rest;
        active_model_calls = s.active_model_calls - amount.model_calls;
      }
          ≡ s' =
        cc (rw (q, release) at e) in
      let less : rest ≡ difference s.reserved amount =
        subtract-difference s.reserved amount rest q in
      rw (← same) (
        rw less (
          over_limit-Shrinks s _ zero_amount zero_amount b
            (omega
              (arith, cost_for-released s.committed s.reserved amount zero_amount b.cost_currency))
            (omega arith) (omega arith) (omega arith) (omega arith) (omega arith) (omega arith)
            (omega arith) (omega arith) (omega arith) (omega arith) (omega arith) h))
]
