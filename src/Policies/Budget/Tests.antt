-- ===== src/Policies/Budget/Tests.antt =====
-- A run with a tool call left.
use matterloop.Base.{◌≡◌, refl, [], ◌∷◌, none, some, true, false, arith}
use matterloop.Base.Dict.{get}
use matterloop.Base.Text.{strip, is_blank}
use matterloop.Policies.Usage.{UsageAmount, zero_amount, new_scope, BudgetLimits, cost_for}
use matterloop.Policies.Usage.Ledger.{UsageLedger, ok, limits_for, refuses}
use matterloop.Policies.Budget.{can_continue, IsUnit, can_continue_accepts}

abbrev limits : BudgetLimits
limits = record {
  max_model_calls = none;
  max_concurrent_model_calls = none;
  max_attempts = none;
  max_input_tokens = none;
  max_output_tokens = none;
  max_total_tokens = none;
  max_cache_hit_tokens = none;
  max_cache_miss_tokens = none;
  max_reasoning_tokens = none;
  max_cost_micros = some 50;
  cost_currency = "USD";
  max_tool_calls = some 2;
  max_agent_tasks = none;
}

abbrev one_call : UsageAmount
one_call = record zero_amount { tool_calls = 1 }

abbrev ledger : UsageLedger
ledger = record {
  default_limits = some limits;
  scope_limits = [];
  states = ("run", record new_scope { committed = one_call }) ∷ [];
  reservations = [];
}

goes_on : can_continue limits ledger "run" ≡ ok true
unfolding can_continue get is_blank cost_for
goes_on = refl

one_call-IsUnit : IsUnit one_call "USD"
unfolding cost_for get
one_call-IsUnit = record {
  model_calls = omega arith;
  input_tokens = omega arith;
  output_tokens = omega arith;
  total_tokens = omega arith;
  cache_hit_tokens = omega arith;
  cache_miss_tokens = omega arith;
  reasoning_tokens = omega arith;
  tool_calls = omega arith;
  agent_tasks = omega arith;
  attempts = omega arith;
  cost = omega arith;
}

can_continue_accepts_example : refuses ledger one_call (strip "run") ≡ false
unfolding limits_for get
can_continue_accepts_example =
    can_continue_accepts limits ledger "run" one_call goes_on refl one_call-IsUnit
