-- ===== src/Policies/Usage/Tests.antt =====
-- A ledger of two scopes, and the theorems at it.
use matterloop.Base.{◌≡◌, refl, String, List, [], ◌∷◌, none, some, true}
use matterloop.Base.Dict.{get, put}
use matterloop.Base.Text.{is_blank}
use matterloop.Policies.Usage.{UsageAmount, zero_amount, new_scope, BudgetLimits, UsageReservation}
use matterloop.Policies.Usage.Ledger.{UsageLedger, ok, state_of}
use matterloop.Policies.Usage.Ledger
use matterloop.Policies.Usage.Undo.{SameUsage}
use matterloop.Policies.Usage.Rollback.{rollback_undoes_reserve}
use matterloop.Policies.Usage.Kept.{IsWithin}
use matterloop.Policies.Usage.Calls.{Action, run, all_commit, IsWithin-run}

abbrev two_tools : BudgetLimits
two_tools = record {
  max_model_calls = none;
  max_concurrent_model_calls = some 1;
  max_attempts = none;
  max_input_tokens = none;
  max_output_tokens = none;
  max_total_tokens = some 100;
  max_cache_hit_tokens = none;
  max_cache_miss_tokens = none;
  max_reasoning_tokens = none;
  max_cost_micros = some 50;
  cost_currency = "USD";
  max_tool_calls = some 2;
  max_agent_tasks = none;
}

abbrev empty : UsageLedger
empty = record { default_limits = none; scope_limits = []; states = []; reservations = [] }

empty-IsWithin : IsWithin empty
unfolding get
empty-IsWithin = record { at = λ scope b s q e. cc }

abbrev call : UsageAmount
call = record zero_amount { model_calls = 1; total_tokens = 40; costs_micros = ("USD", 20) ∷ [] }

abbrev less : UsageAmount
less = record zero_amount { model_calls = 1; total_tokens = 30; costs_micros = ("USD", 10) ∷ [] }

abbrev reservation : UsageReservation
reservation = record { reservation_id = "r1"; scopes = "team" ∷ "task" ∷ []; amount = call }

-- The second reservation is refused, since a call is active.
abbrev calls : List Action
calls =
    Action.configure_scope "team" two_tools
    ∷ Action.reserve (" team" ∷ "task" ∷ []) call "r1"
    ∷ Action.reserve ("team" ∷ []) call "r2"
    ∷ Action.commit reservation (some less)
    ∷ Action.consume ("team" ∷ []) (record zero_amount { tool_calls = 2 })
    ∷ []

calls_commit : all_commit calls empty ≡ true
unfolding all_commit get Ledger.reserve is_blank Ledger.configure_scope put
calls_commit = refl

IsWithin-run_example : IsWithin (run calls empty)
IsWithin-run_example = IsWithin-run calls empty calls_commit empty-IsWithin

abbrev reserved_ledger : UsageLedger
reserved_ledger = record empty {
  states =
      ("team", Ledger.reserve_in call new_scope) ∷ ("task", Ledger.reserve_in call new_scope) ∷ [];
  reservations = ("r1", reservation) ∷ [];
}

reserves :
    Ledger.reserve (" team" ∷ "task" ∷ []) call "r1" empty ≡ (ok reservation, reserved_ledger)
unfolding Ledger.reserve get put is_blank
reserves = refl

rollback_undoes_reserve_example :
    ((Ledger.rollback reservation reserved_ledger).0 ≡ ok tt)
    × ((k : String)
        → SameUsage
            (state_of empty.states k)
            (state_of (Ledger.rollback reservation reserved_ledger).1.states k))
    × ((j : String)
        → get (Ledger.rollback reservation reserved_ledger).1.reservations j
          ≡ get empty.reservations j)
rollback_undoes_reserve_example =
    rollback_undoes_reserve (" team" ∷ "task" ∷ []) call "r1" empty reservation reserved_ledger
      reserves
