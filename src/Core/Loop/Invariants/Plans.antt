-- ===== src/Core/Loop/Invariants/Plans.antt =====
-- A `FullRule` holds along `_execute_plan` and `_finish_plan_outcome`.
use matterloop.Base.{
  ℕ, suc, String, List, [], ◌∷◌, Option, none, some, Bool, true, false, if◌then◌else◌,
}
use matterloop.Core.Status.{LoopStatus}
use matterloop.Core.Context.{
  LoopContext, PlanStep, ExecutionResult, HumanInteractionRequest, CompletionAction,
  CompletionDecision, Plan as LoopPlan,
}
use matterloop.Core.Loop.Monad.{LoopState, ◌>>=◌}
use matterloop.Core.Loop.Monad.{Call, note_call}
use matterloop.Core.Loop.Components.{Components, Awaited}
use matterloop.Core.Loop.Plan
use matterloop.Core.Loop.Keeps.{Keeps, Keeps-bind, Keeps-if, BaseRule}
use matterloop.Core.Loop.Invariants.Base.{base_facts}
use matterloop.Core.Loop.Invariants.Full.{
  FullRule, Keeps-execute, Keeps-approve, Keeps-request_human,
}

module _ (env : Components) {P : LoopState → Type 0} (rule : FullRule env P)
    (planner verifier : String) where
  abbrev base : BaseRule env P
  base = rule.base

  Keeps-enter_if_needed : (target : LoopStatus) → Keeps P (Plan.enter_if_needed env verifier target)
  unfolding Plan.enter_if_needed
  Keeps-enter_if_needed target = search (base_facts, base) depth 12

  Keeps-after_execute :
      (r : Option (ExecutionResult × ℕ)) → Keeps P (Plan.after_execute env verifier r)
  unfolding Plan.after_execute
  Keeps-after_execute none = search base_facts depth 12
  Keeps-after_execute (some (r, a)) = search base_facts

  Keeps-run_step : (step : PlanStep) → Keeps P (Plan.run_step env verifier step)
  unfolding Plan.run_step
  Keeps-run_step step = Keeps-bind _ _ (Keeps-execute env rule step) Keeps-after_execute

  Keeps-run_approved :
      (step : PlanStep) (b : Bool) → Keeps P (Plan.run_approved env verifier step b)
  unfolding Plan.run_approved
  Keeps-run_approved step true = Keeps-run_step step
  Keeps-run_approved step false = search base_facts

  Keeps-fresh : (step : PlanStep) → Keeps P (Plan.fresh_execution env verifier step)
  unfolding Plan.fresh_execution
  Keeps-fresh step =
      search
        (
          base_facts,
          Keeps-approve env rule,
          Keeps-run_approved,
          Keeps-run_step,
          Keeps-enter_if_needed,
        )
        depth 12

  Keeps-pending :
      (step : PlanStep) (e : ExecutionResult) → Keeps P (Plan.pending_result env verifier step e)
  unfolding Plan.pending_result
  Keeps-pending step e = search base_facts depth 12

  Keeps-prepare_step : (step : PlanStep) → Keeps P (Plan.prepare_step env verifier step)
  unfolding Plan.prepare_step
  Keeps-prepare_step step = search (base_facts, Keeps-fresh, Keeps-pending) depth 12

  Keeps-call : (c : Call) → Keeps P (note_call c)
  Keeps-call = rule.call

  Keeps-verify_step :
      (index : ℕ) (step : PlanStep) (e : ExecutionResult) (a : ℕ)
      → Keeps P (Plan.verify_step env verifier index step e a)
  unfolding Plan.verify_step
  Keeps-verify_step index step e a =
      search (base_facts, base, Keeps-call, Keeps-enter_if_needed) depth 24

  Keeps-plan_rejected : Keeps P (Plan.plan_rejected env verifier)
  unfolding Plan.plan_rejected
  Keeps-plan_rejected = search (base_facts, base) depth 12

  module _ (step : PlanStep) (steps : List PlanStep) (index : ℕ)
      (rest : Keeps P (Plan.execute_steps env verifier steps (suc index))) where
    Keeps-verified :
        (e : ExecutionResult) (a : ℕ)
        → Keeps P (do
          passed ← Plan.verify_step env verifier index step e a
          if passed
              then Plan.execute_steps env verifier steps (suc index)
              else Plan.plan_rejected env verifier)
    Keeps-verified e a =
        Keeps-bind _ _ (Keeps-verify_step index step e a)
          λ passed. Keeps-if passed _ _ rest Keeps-plan_rejected

    Keeps-prepared :
        (r : Plan.Prepared)
        → Keeps P (
            Plan.after_prepare r λ e a. do
              passed ← Plan.verify_step env verifier index step e a
              if passed
                  then Plan.execute_steps env verifier steps (suc index)
                  else Plan.plan_rejected env verifier)
    Keeps-prepared (Plan.ready e a) = Keeps-verified e a
    Keeps-prepared (Plan.ended o) = search base_facts

  Keeps-execute_steps :
      (steps : List PlanStep) (index : ℕ) → Keeps P (Plan.execute_steps env verifier steps index)
  unfolding Plan.execute_steps
  Keeps-execute_steps [] index = search base_facts
  Keeps-execute_steps (step ∷ steps) index =
      let rest = Keeps-execute_steps steps (suc index) in
      Keeps-bind _ _ (search (base_facts, base)) λ _.
        Keeps-bind _ _ (search (base_facts, base)) λ stopped.
          Keeps-if stopped _ _ (search base_facts)
            (Keeps-bind _ _ (Keeps-prepare_step step) (Keeps-prepared step steps index rest))

  pub Keeps-execute_plan : (plan : LoopPlan) → Keeps P (Plan.execute_plan env verifier plan)
  unfolding Plan.execute_plan
  Keeps-execute_plan plan = search (base_facts, Keeps-execute_steps) depth 12

  Keeps-complete : Keeps P (Plan.complete env)
  unfolding Plan.complete
  Keeps-complete = search (base_facts, base) depth 12

  Keeps-ask_human : (i : Option HumanInteractionRequest) → Keeps P (Plan.ask_human env i)
  unfolding Plan.ask_human
  Keeps-ask_human none = search base_facts
  Keeps-ask_human (some i) = search (base_facts, Keeps-request_human env rule) depth 12

  Keeps-follow_completion :
      (a : CompletionAction) (i : Option HumanInteractionRequest)
      → Keeps P (Plan.follow_completion env a i)
  unfolding Plan.follow_completion
  Keeps-follow_completion CompletionAction.accept i = Keeps-complete
  Keeps-follow_completion CompletionAction.replan i = search (base_facts, base) depth 12
  Keeps-follow_completion CompletionAction.request_human i = Keeps-ask_human i
  Keeps-follow_completion CompletionAction.stop i = search (base_facts, base) depth 12

  Keeps-evaluate :
      (f : ℕ → LoopContext → Awaited CompletionDecision) → Keeps P (Plan.evaluate_completion env f)
  unfolding Plan.evaluate_completion
  Keeps-evaluate f = search (base_facts, base, Keeps-follow_completion) depth 24

  pub Keeps-finish : (o : Plan.PlanOutcome) → Keeps P (Plan.finish_plan_outcome env o)
  unfolding Plan.finish_plan_outcome Plan.finish_completed
  Keeps-finish Plan.PlanOutcome.stopped = search base_facts
  Keeps-finish Plan.PlanOutcome.replan = search base_facts
  Keeps-finish Plan.PlanOutcome.completed =
      search (base_facts, base, Keeps-complete, Keeps-evaluate) depth 12
