-- ===== src/Core/Loop/Budget.antt =====
-- The budgets of a run (context/models.py, `LoopLimits`) along `_drive` of loop/controller.py.
use matterloop.Base.{◌≡◌, ◌≤◌, All, arith, String, Bool}
use matterloop.Core.Context.{LoopContext, LoopRequest}
use matterloop.Core.Loop.Monad.{LoopState, Commit, modify, next_tick, note_call}
use matterloop.Core.Loop.Components.{Components, receive_cancels}
use matterloop.Core.Loop.Checkpoint.{acknowledge, note_event, advance_sequence, enter}
use matterloop.Core.Loop.Execute.{count_attempt}
use matterloop.Core.Loop.Drive.{begin_cycle, discard_cancel, drive}
use matterloop.Core.Loop.Keeps.{SameCore}
use matterloop.Core.Loop.Invariants.Emit.{EmitRule, base_rule}
use matterloop.Core.Loop.Invariants.Full.{FullRule}
use matterloop.Core.Loop.Invariants.Runs.{Keeps-drive}

-- A context of the request `r` within both budgets.
pub record WithinBudget (r : LoopRequest) (c : LoopContext) : Type 0 where
  pub same_request : c.request ≡ r
  pub cycles : c.cycle_count ≤ r.limits.max_cycles
  pub attempts : c.total_attempts ≤ r.limits.max_attempts

-- The context, and every checkpoint that the store has accepted.
pub record BudgetHistory (r : LoopRequest) (s : LoopState) : Type 0 where
  pub current : WithinBudget r s.context
  pub committed : All (λ (c : Commit). WithinBudget r c.snapshot) s.commits

module _ (r : LoopRequest) where
  abbrev WithRequest : LoopState → Type 0
  WithRequest = BudgetHistory r

  stays_within : {a b : LoopContext} → SameCore a b → WithinBudget r b → WithinBudget r a
  stays_within e w = ground (arith, e.request, e.cycle_count, e.total_attempts)

  budget_rule : EmitRule WithRequest
  unfolding next_tick modify note_event acknowledge enter receive_cancels advance_sequence
  budget_rule = record {
    tick = record { at = λ s h. record { current = h.current; committed = h.committed } };
    cancels = λ rs. record { at = λ s h. record { current = h.current; committed = h.committed } };
    neutral = λ f n. record {
      at =
          λ s h. record { current = stays_within (n s.context) h.current; committed = h.committed };
    };
    advance =
        λ t n. record { at = λ s h. record { current = ground arith; committed = h.committed } };
    commit = λ v s h _. record { current = ground arith; committed = (ground arith, h.committed) };
    event = λ e. record { at = λ s h. record { current = h.current; committed = h.committed } };
    enter = λ t target s h _. record { current = ground arith; committed = h.committed };
  }

  budget_full : (env : Components) → FullRule env WithRequest
  unfolding count_attempt begin_cycle discard_cancel note_call
  budget_full env = record {
    base = base_rule env budget_rule;
    attempt = λ a s h ok. record { current = ground (arith, h.current); committed = h.committed };
    cycle = λ s h ok. record { current = ground (arith, h.current); committed = h.committed };
    discard = λ s h. record { current = h.current; committed = h.committed };
    call = λ c. record { at = λ s h. record { current = h.current; committed = h.committed } };
  }

-- A driver that starts within the cycle and attempt budgets of its request, with every accepted
-- checkpoint within them, ends so, whether it returns or raises, and whatever the components do.
pub drive-BudgetHistory :
    (env : Components) (planner verifier : String) (continue : Bool) (r : LoopRequest)
    (s : LoopState)
    → BudgetHistory r s
    → BudgetHistory r (drive env planner verifier continue s).1
drive-BudgetHistory env planner verifier continue r s h =
    (Keeps-drive env (budget_full r env) planner verifier continue).at s h
