-- ===== src/Policies/Usage.antt =====
-- matterloop-policies/src/python/matterloop_policies/usage.py: amounts of usage and the ledger of scopes,
-- and budget.py: the limits of a scope. Currencies stand stripped and in
-- upper case.
pub mod Ledger
pub mod Sums
pub mod Limits
pub mod Within
pub mod Kept
pub mod Settle
pub mod Calls
pub mod Undo
pub mod Rollback
mod Tests
use matterloop.Base.{
  ℕ, zero, suc, ◌+◌, ◌-◌, String, List, [], ◌∷◌, ◌++◌, Option, none, some, Bool, true, false, not,
  eqb, ltb, leb, elem, any, all, ◌==◌, ◌&&◌, ◌||◌, if◌then◌else◌,
}
use matterloop.Base.Dict.{Dict, get, put, keys}

pub record UsageAmount : Type 0 where
  pub model_calls : ℕ
  pub input_tokens : ℕ
  pub output_tokens : ℕ
  pub total_tokens : ℕ
  pub cache_hit_tokens : ℕ
  pub cache_miss_tokens : ℕ
  pub reasoning_tokens : ℕ
  pub tool_calls : ℕ
  pub agent_tasks : ℕ
  pub attempts : ℕ
  pub costs_micros : Dict ℕ

-- `costs.get(currency, 0)`
unfoldable pub amount_at : Dict ℕ → String → ℕ
amount_at d currency = elim (get d currency) [ none ↦ 0 | some v ↦ v ]

-- `cost_for`
unfoldable pub cost_for : UsageAmount → String → ℕ
unfolding amount_at
cost_for u currency = amount_at u.costs_micros currency

-- A mapping of the costs, without those that are zero.
unfoldable pub costs : (String → ℕ) → List String → Dict ℕ
costs f [] = []
costs f (c ∷ cs) = let rest = costs f cs in if eqb (f c) 0 then rest else (c, f c) ∷ rest

abbrev pub zero_amount : UsageAmount
zero_amount = record {
  model_calls = 0;
  input_tokens = 0;
  output_tokens = 0;
  total_tokens = 0;
  cache_hit_tokens = 0;
  cache_miss_tokens = 0;
  reasoning_tokens = 0;
  tool_calls = 0;
  agent_tasks = 0;
  attempts = 0;
  costs_micros = [];
}

-- `is_zero`
unfoldable pub is_zero : UsageAmount → Bool
is_zero u =
    eqb u.model_calls 0
    && eqb u.input_tokens 0
    && eqb u.output_tokens 0
    && eqb u.total_tokens 0
    && eqb u.cache_hit_tokens 0
    && eqb u.cache_miss_tokens 0
    && eqb u.reasoning_tokens 0
    && eqb u.tool_calls 0
    && eqb u.agent_tasks 0
    && eqb u.attempts 0
    && all (λ (e : String × ℕ). eqb e.1 0) u.costs_micros

abbrev pub currencies : UsageAmount → UsageAmount → List String
currencies l r = keys l.costs_micros ++ keys r.costs_micros

-- `_add`
unfoldable pub add : UsageAmount → UsageAmount → UsageAmount
unfolding cost_for costs
add l r = record {
  model_calls = l.model_calls + r.model_calls;
  input_tokens = l.input_tokens + r.input_tokens;
  output_tokens = l.output_tokens + r.output_tokens;
  total_tokens = l.total_tokens + r.total_tokens;
  cache_hit_tokens = l.cache_hit_tokens + r.cache_hit_tokens;
  cache_miss_tokens = l.cache_miss_tokens + r.cache_miss_tokens;
  reasoning_tokens = l.reasoning_tokens + r.reasoning_tokens;
  tool_calls = l.tool_calls + r.tool_calls;
  agent_tasks = l.agent_tasks + r.agent_tasks;
  attempts = l.attempts + r.attempts;
  costs_micros = costs (λ c. cost_for l c + cost_for r c) (currencies l r);
}

-- No value of the difference is negative.
unfoldable pub fits : UsageAmount → UsageAmount → Bool
unfolding cost_for
fits l r =
    leb r.model_calls l.model_calls
    && leb r.input_tokens l.input_tokens
    && leb r.output_tokens l.output_tokens
    && leb r.total_tokens l.total_tokens
    && leb r.cache_hit_tokens l.cache_hit_tokens
    && leb r.cache_miss_tokens l.cache_miss_tokens
    && leb r.reasoning_tokens l.reasoning_tokens
    && leb r.tool_calls l.tool_calls
    && leb r.agent_tasks l.agent_tasks
    && leb r.attempts l.attempts
    && all (λ c. leb (cost_for r c) (cost_for l c)) (currencies l r)

unfoldable pub difference : UsageAmount → UsageAmount → UsageAmount
unfolding cost_for costs
difference l r = record {
  model_calls = l.model_calls - r.model_calls;
  input_tokens = l.input_tokens - r.input_tokens;
  output_tokens = l.output_tokens - r.output_tokens;
  total_tokens = l.total_tokens - r.total_tokens;
  cache_hit_tokens = l.cache_hit_tokens - r.cache_hit_tokens;
  cache_miss_tokens = l.cache_miss_tokens - r.cache_miss_tokens;
  reasoning_tokens = l.reasoning_tokens - r.reasoning_tokens;
  tool_calls = l.tool_calls - r.tool_calls;
  agent_tasks = l.agent_tasks - r.agent_tasks;
  attempts = l.attempts - r.attempts;
  costs_micros = costs (λ c. cost_for l c - cost_for r c) (currencies l r);
}

-- `_subtract`; a negative value is a ValueError.
unfoldable pub subtract : UsageAmount → UsageAmount → Option UsageAmount
unfolding fits difference
subtract l r = if fits l r then some (difference l r) else none

-- `BudgetLimits`; `max_executor_attempts` is another name of `max_attempts`.
pub record BudgetLimits : Type 0 where
  pub max_model_calls : Option ℕ
  pub max_concurrent_model_calls : Option ℕ
  pub max_attempts : Option ℕ
  pub max_input_tokens : Option ℕ
  pub max_output_tokens : Option ℕ
  pub max_total_tokens : Option ℕ
  pub max_cache_hit_tokens : Option ℕ
  pub max_cache_miss_tokens : Option ℕ
  pub max_reasoning_tokens : Option ℕ
  pub max_cost_micros : Option ℕ
  pub cost_currency : String
  pub max_tool_calls : Option ℕ
  pub max_agent_tasks : Option ℕ

-- `_ScopeState`
pub record ScopeState : Type 0 where
  pub committed : UsageAmount
  pub reserved : UsageAmount
  pub active_model_calls : ℕ

abbrev pub new_scope : ScopeState
new_scope = record { committed = zero_amount; reserved = zero_amount; active_model_calls = 0 }

-- `UsageReservation`
pub record UsageReservation : Type 0 where
  pub reservation_id : String
  pub scopes : List String
  pub amount : UsageAmount

-- The values that `_check_limits` compares, and the limits, in its order.
unfoldable pub projected_values : ScopeState → UsageAmount → String → List ℕ
unfolding add cost_for
projected_values s requested currency =
    let projected = add (add s.committed s.reserved) requested in
    projected.model_calls
    ∷ (s.active_model_calls + requested.model_calls)
    ∷ projected.input_tokens
    ∷ projected.output_tokens
    ∷ projected.total_tokens
    ∷ projected.cache_hit_tokens
    ∷ projected.cache_miss_tokens
    ∷ projected.reasoning_tokens
    ∷ projected.tool_calls
    ∷ projected.agent_tasks
    ∷ projected.attempts
    ∷ cost_for projected currency
    ∷ []

abbrev pub limit_values : BudgetLimits → List (Option ℕ)
limit_values b =
    b.max_model_calls ∷ b.max_concurrent_model_calls ∷ b.max_input_tokens ∷ b.max_output_tokens
    ∷ b.max_total_tokens ∷ b.max_cache_hit_tokens ∷ b.max_cache_miss_tokens ∷ b.max_reasoning_tokens
    ∷ b.max_tool_calls ∷ b.max_agent_tasks ∷ b.max_attempts ∷ b.max_cost_micros ∷ []

-- `limit is not None and value > limit`, of any resource.
unfoldable pub exceeds : List ℕ → List (Option ℕ) → Bool
exceeds [] limits = false
exceeds (v ∷ vs) [] = false
exceeds (v ∷ vs) (none ∷ limits) = exceeds vs limits
exceeds (v ∷ vs) (some l ∷ limits) = ltb l v || exceeds vs limits

-- `_check_limits` raises.
unfoldable pub over_limit : ScopeState → UsageAmount → BudgetLimits → Bool
unfolding projected_values exceeds
over_limit s requested b = exceeds (projected_values s requested b.cost_currency) (limit_values b)
