-- ===== src/Policies/Usage/Kept.antt =====
-- usage.py: the limits of a scope as bounds on what is committed and reserved, and the test of
-- `_check_limits`.
use matterloop.Base.{
  ◌≡◌, refl, sym, ℕ, ◌+◌, ◌≤◌, String, List, [], ◌∷◌, Option, none, some, false, arith,
}
use matterloop.Base.Dict.{get}
use matterloop.Policies.Usage.{
  cost_for, zero_amount, BudgetLimits, ScopeState, exceeds, over_limit, projected_values,
  limit_values, add,
}
use matterloop.Policies.Usage.Ledger.{UsageLedger, limits_for}
use matterloop.Policies.Usage.Limits.{cost_for-zero}
use matterloop.Policies.Usage.Sums.{cost_for-add}
use matterloop.Policies.Usage.Within.{IsTested}

abbrev pub AtMost : Option ℕ → ℕ → Type 0
AtMost none v = Unit
AtMost (some l) v = v ≤ l

-- What is committed and reserved of each resource is within its limit, the costs in the currency of
-- the limit, and so are the active model calls.
pub record Keeps (s : ScopeState) (b : BudgetLimits) : Type 0 where
  pub model_calls : AtMost b.max_model_calls (s.committed.model_calls + s.reserved.model_calls)
  pub active : AtMost b.max_concurrent_model_calls s.active_model_calls
  pub input_tokens : AtMost b.max_input_tokens (s.committed.input_tokens + s.reserved.input_tokens)
  pub output_tokens :
      AtMost b.max_output_tokens (s.committed.output_tokens + s.reserved.output_tokens)
  pub total_tokens : AtMost b.max_total_tokens (s.committed.total_tokens + s.reserved.total_tokens)
  pub cache_hit_tokens :
      AtMost b.max_cache_hit_tokens (s.committed.cache_hit_tokens + s.reserved.cache_hit_tokens)
  pub cache_miss_tokens :
      AtMost b.max_cache_miss_tokens (s.committed.cache_miss_tokens + s.reserved.cache_miss_tokens)
  pub reasoning_tokens :
      AtMost b.max_reasoning_tokens (s.committed.reasoning_tokens + s.reserved.reasoning_tokens)
  pub tool_calls : AtMost b.max_tool_calls (s.committed.tool_calls + s.reserved.tool_calls)
  pub agent_tasks : AtMost b.max_agent_tasks (s.committed.agent_tasks + s.reserved.agent_tasks)
  pub attempts : AtMost b.max_attempts (s.committed.attempts + s.reserved.attempts)
  pub cost :
      AtMost b.max_cost_micros
        (cost_for s.committed b.cost_currency + cost_for s.reserved b.cost_currency)

-- Every scope with limits keeps them.
pub record IsWithin (l : UsageLedger) : Type 0 where
  pub at :
      (scope : String) (b : BudgetLimits) (s : ScopeState)
      → limits_for l scope ≡ some b
      → get l.states scope ≡ some s
      → Keeps s b

abbrev AllAtMost : List ℕ → List (Option ℕ) → Type 0
AllAtMost [] limits = Unit
AllAtMost (v ∷ vs) [] = Unit
AllAtMost (v ∷ vs) (o ∷ limits) = AtMost o v × AllAtMost vs limits

exceeds→AllAtMost :
    (vs : List ℕ) (limits : List (Option ℕ)) → exceeds vs limits ≡ false → AllAtMost vs limits
unfolding exceeds
exceeds→AllAtMost [] limits h = tt
exceeds→AllAtMost (v ∷ vs) [] h = tt
exceeds→AllAtMost (v ∷ vs) (none ∷ limits) h = (tt, exceeds→AllAtMost vs limits h)
exceeds→AllAtMost (v ∷ vs) (some l ∷ limits) h =
    (ground (arith, h), exceeds→AllAtMost vs limits (ground (arith, h)))

AllAtMost→exceeds :
    (vs : List ℕ) (limits : List (Option ℕ)) → AllAtMost vs limits → exceeds vs limits ≡ false
unfolding exceeds
AllAtMost→exceeds [] limits a = refl
AllAtMost→exceeds (v ∷ vs) [] a = refl
AllAtMost→exceeds (v ∷ vs) (none ∷ limits) (u, a) = AllAtMost→exceeds vs limits a
AllAtMost→exceeds (v ∷ vs) (some l ∷ limits) (u, a) =
    ground (arith, u, AllAtMost→exceeds vs limits a)

fewer : (o : Option ℕ) (v w : ℕ) → v ≡ w → AtMost o v → AtMost o w
fewer none v w e h = tt
fewer (some l) v w e h = omega (arith, e, h)

cost_now :
    (s : ScopeState) (c : String)
    → cost_for (add (add s.committed s.reserved) zero_amount) c
      ≡ cost_for s.committed c + cost_for s.reserved c
cost_now s c = omega (
  arith,
  cost_for-add (add s.committed s.reserved) zero_amount c,
  cost_for-add s.committed s.reserved c,
  cost_for-zero c,
)

module _ (s : ScopeState) (b : BudgetLimits) where
  over_limit→Keeps : over_limit s zero_amount b ≡ false → Keeps s b
  unfolding over_limit projected_values add
  over_limit→Keeps h =
      let (m, (a, (i, (o, (t, (ch, (cm, (r, (tc, (at, (n, (c, end)))))))))))) =
        exceeds→AllAtMost (projected_values s zero_amount b.cost_currency) (limit_values b) h in
      record {
        model_calls = fewer b.max_model_calls _ _ (omega arith) m;
        active = fewer b.max_concurrent_model_calls _ _ (omega arith) a;
        input_tokens = fewer b.max_input_tokens _ _ (omega arith) i;
        output_tokens = fewer b.max_output_tokens _ _ (omega arith) o;
        total_tokens = fewer b.max_total_tokens _ _ (omega arith) t;
        cache_hit_tokens = fewer b.max_cache_hit_tokens _ _ (omega arith) ch;
        cache_miss_tokens = fewer b.max_cache_miss_tokens _ _ (omega arith) cm;
        reasoning_tokens = fewer b.max_reasoning_tokens _ _ (omega arith) r;
        tool_calls = fewer b.max_tool_calls _ _ (omega arith) tc;
        agent_tasks = fewer b.max_agent_tasks _ _ (omega arith) at;
        attempts = fewer b.max_attempts _ _ (omega arith) n;
        cost = fewer b.max_cost_micros _ _ (cost_now s b.cost_currency) c;
      }

  Keeps→over_limit : Keeps s b → over_limit s zero_amount b ≡ false
  unfolding over_limit projected_values add
  Keeps→over_limit k =
      AllAtMost→exceeds (projected_values s zero_amount b.cost_currency) (limit_values b) (
        fewer b.max_model_calls _ _ (omega arith) k.model_calls,
        (
          fewer b.max_concurrent_model_calls _ _ (omega arith) k.active,
          (
            fewer b.max_input_tokens _ _ (omega arith) k.input_tokens,
            (
              fewer b.max_output_tokens _ _ (omega arith) k.output_tokens,
              (
                fewer b.max_total_tokens _ _ (omega arith) k.total_tokens,
                (
                  fewer b.max_cache_hit_tokens _ _ (omega arith) k.cache_hit_tokens,
                  (
                    fewer b.max_cache_miss_tokens _ _ (omega arith) k.cache_miss_tokens,
                    (
                      fewer b.max_reasoning_tokens _ _ (omega arith) k.reasoning_tokens,
                      (
                        fewer b.max_tool_calls _ _ (omega arith) k.tool_calls,
                        (
                          fewer b.max_agent_tasks _ _ (omega arith) k.agent_tasks,
                          (
                            fewer b.max_attempts _ _ (omega arith) k.attempts,
                            (
                              fewer b.max_cost_micros _ _ (sym (cost_now s b.cost_currency)) k.cost,
                              tt,
                            ),
                          ),
                        ),
                      ),
                    ),
                  ),
                ),
              ),
            ),
          ),
        ),
      )

pub IsTested→IsWithin : (l : UsageLedger) → IsTested l → IsWithin l
IsTested→IsWithin l w = record { at = λ k b s q e. over_limit→Keeps s b (w.at k b s q e) }

pub IsWithin→IsTested : (l : UsageLedger) → IsWithin l → IsTested l
IsWithin→IsTested l w = record { at = λ k b s q e. Keeps→over_limit s b (w.at k b s q e) }
