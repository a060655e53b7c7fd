-- ===== src/Core/Loop/Invariants/Runs.antt =====
-- A `FullRule` holds along `_run_cycles` and `_drive`.
use matterloop.Base.{
  ◌≡◌, refl, ℕ, zero, suc, String, Bool, true, false, leb, ltb, eqb, length, if◌then◌else◌,
}
use matterloop.Core.Context.{
  LoopError, result_from_context, loop_stopped, fault, interrupted, conflict, resource_limit,
  out_of_fuel, invalid_plan, Plan as LoopPlan,
}
use matterloop.Core.Loop.Monad.{LoopState, ◌>>=◌, ◌>>◌, pure, raise, get_context, modify}
use matterloop.Core.Loop.Components.{Components}
use matterloop.Core.Loop.Plan
use matterloop.Core.Loop.Drive
use matterloop.Core.Loop.Keeps.{
  Keeps, Keeps-bind, Keeps-if, Keeps-and_then, Keeps-try, Keeps-finally, and_then-keeps, Keeps-read,
  BaseRule, keeps_rules,
}
use matterloop.Core.Loop.Invariants.Emit.{base_rule}
use matterloop.Core.Loop.Invariants.Base.{base_facts}
use matterloop.Core.Loop.Invariants.Full.{FullRule, HasCycles, HasCycles-EmitRule, BaseRule-both}
use matterloop.Core.Loop.Invariants.Plans

pub Keeps-enter_planning :
    (env : Components) {Q : LoopState → Type 0} (planner verifier : String)
    → BaseRule env Q
    → Keeps Q (Drive.enter_planning env planner verifier)
unfolding Drive.enter_planning
Keeps-enter_planning env planner verifier base = search (base_facts, base) depth 12

module _ (env : Components) {P : LoopState → Type 0} (rule : FullRule env P)
    (planner verifier : String) where
  abbrev base : BaseRule env P
  base = rule.base

  Keeps-execute_plan : (plan : LoopPlan) → Keeps P (Plan.execute_plan env verifier plan)
  Keeps-execute_plan = Plans.Keeps-execute_plan env rule planner verifier

  Keeps-finish : (o : Plan.PlanOutcome) → Keeps P (Plan.finish_plan_outcome env o)
  Keeps-finish = Plans.Keeps-finish env rule planner verifier

  pub Keeps-call_planner : Keeps P (Drive.call_planner env planner verifier)
  unfolding Drive.call_planner
  Keeps-call_planner = search (base_facts, base) depth 12

  -- The cycle is counted after the transition to PLANNING, and its budget was tested before.
  request_plan-keeps :
      (s : LoopState) → P s → HasCycles s → P (Drive.request_plan env planner verifier s).1
  unfolding Drive.request_plan ◌>>=◌ modify
  request_plan-keeps s p ok =
      let entered =
        (Keeps-enter_planning env planner verifier
            (BaseRule-both env base (base_rule env HasCycles-EmitRule))).at
          s (p, ok) in
      and_then-keeps P (Drive.enter_planning env planner verifier s).0 _ _ entered.0
        (λ _. Keeps-call_planner.at _ (rule.cycle _ entered.0 entered.1))

  Keeps-adopt : (plan : LoopPlan) → Keeps P (Drive.adopt_plan env planner verifier plan)
  unfolding Drive.adopt_plan
  Keeps-adopt plan = search (base_facts, base, Keeps-execute_plan, Keeps-finish) depth 24

  Keeps-step_limit : Keeps P (Drive.step_limit_reached env planner verifier)
  unfolding Drive.step_limit_reached
  Keeps-step_limit = search (base_facts, base) depth 12

  pub Keeps-follow_plan :
      (plan : LoopPlan)
      → Keeps P (do
        if eqb (length plan.steps) 0 then raise invalid_plan else pure tt
        context ← get_context
        if ltb context.request.limits.max_steps_per_plan (length plan.steps)
            then Drive.step_limit_reached env planner verifier
            else Drive.adopt_plan env planner verifier plan)
  Keeps-follow_plan plan = search (base_facts, Keeps-step_limit, Keeps-adopt) depth 12

  plan_and_execute-keeps :
      (s : LoopState) → P s → HasCycles s → P (Drive.plan_and_execute env planner verifier s).1
  unfolding Drive.plan_and_execute ◌>>=◌
  plan_and_execute-keeps s p ok =
      Keeps-and_then (Drive.request_plan env planner verifier s).0 _ Keeps-follow_plan _
        (request_plan-keeps s p ok)

  Keeps-cycle_limit : Keeps P (Drive.cycle_limit_reached env planner verifier)
  unfolding Drive.cycle_limit_reached
  Keeps-cycle_limit = search (base_facts, base) depth 12

  cycle-keeps :
      (stopped b : Bool) (s : LoopState)
      → leb s.context.request.limits.max_cycles s.context.cycle_count ≡ b
      → P s
      → P
          ((if stopped
              then pure true
              else (if b
                  then Drive.cycle_limit_reached env planner verifier
                  else Drive.plan_and_execute env planner verifier))
            s).1
  unfolding pure
  cycle-keeps true b s e p = p
  cycle-keeps false true s e p = Keeps-cycle_limit.at s p
  cycle-keeps false false s e p = plan_and_execute-keeps s p e

  Keeps-run_cycle : Keeps P (Drive.run_cycle env planner verifier)
  unfolding Drive.run_cycle
  Keeps-run_cycle =
      Keeps-bind _ _ (search (base_facts, base))
        λ stopped. Keeps-read _ λ s p. cycle-keeps stopped _ s refl p

  Keeps-cycle_rounds : (fuel : ℕ) → Keeps P (Drive.cycle_rounds env planner verifier fuel)
  unfolding Drive.cycle_rounds
  Keeps-cycle_rounds zero = search base_facts
  Keeps-cycle_rounds (suc fuel) =
      Keeps-bind _ _ Keeps-run_cycle
        λ ended. Keeps-if ended _ _ (search base_facts) (Keeps-cycle_rounds fuel)

  Keeps-all_cycles : Keeps P (Drive.all_cycles env planner verifier)
  unfolding Drive.all_cycles
  Keeps-all_cycles = search (base_facts, Keeps-cycle_rounds) depth 12

  Keeps-continue : Keeps P (Drive.continue_plan env planner verifier)
  unfolding Drive.continue_plan
  Keeps-continue = search (base_facts, Keeps-execute_plan, Keeps-finish) depth 12

  Keeps-run_cycles : (b : Bool) → Keeps P (Drive.run_cycles env planner verifier b)
  unfolding Drive.run_cycles
  Keeps-run_cycles b = search (base_facts, Keeps-continue, Keeps-all_cycles) depth 12

  Keeps-check_stable : Keeps P (Drive.check_stable env planner verifier)
  unfolding Drive.check_stable
  Keeps-check_stable = search (base_facts, base) depth 12

  Keeps-on_cancelled : Keeps P (Drive.on_cancelled env planner verifier)
  unfolding Drive.on_cancelled
  Keeps-on_cancelled = search (base_facts, base) depth 12

  Keeps-on_error : (e : LoopError) → Keeps P (Drive.on_drive_error env planner verifier e)
  unfolding Drive.on_drive_error
  Keeps-on_error loop_stopped = search base_facts
  Keeps-on_error (fault interrupted) = Keeps-on_cancelled
  Keeps-on_error (fault conflict) = search base_facts
  Keeps-on_error (fault (resource_limit m)) = search (base_facts, base) depth 12
  Keeps-on_error out_of_fuel = search base_facts
  Keeps-on_error e = search (base_facts, base) depth 12

  Keeps-result : Keeps P (do context ← get_context; pure (result_from_context context))
  Keeps-result = search keeps_rules

  -- The invariant holds where `_drive` returns, and where it raises.
  pub Keeps-drive : (b : Bool) → Keeps P (Drive.drive env planner verifier b)
  unfolding Drive.drive
  Keeps-drive b =
      Keeps-bind _ _
        (Keeps-finally _ _
          (Keeps-try _ _ (search (base_facts, Keeps-run_cycles, Keeps-check_stable) depth 12)
            Keeps-on_error)
          rule.discard)
        (λ _. Keeps-result)
