-- ===== src/Core/Loop/Ends/Plan.antt =====
-- `_execute_plan` and `_finish_plan_outcome` end.
use matterloop.Base.{
  String, ℕ, suc, List, [], ◌∷◌, Option, none, some, Bool, true, false, if◌then◌else◌,
}
use matterloop.Core.Status.{LoopStatus}
use matterloop.Core.Context.{
  LoopContext, PlanStep, ExecutionResult, HumanInteractionRequest, CompletionAction,
  CompletionDecision, Plan as LoopPlan,
}
use matterloop.Core.Loop.Monad.{◌>>=◌}
use matterloop.Core.Loop.Components.{Components, Awaited}
use matterloop.Core.Loop.Plan
use matterloop.Core.Loop.Ends.{Ends, Ends-bind, Ends-if}
use matterloop.Core.Loop.Ends.Small.{small_ends, Ends-boundary}
use matterloop.Core.Loop.Ends.Execute.{Ends-request_human, Ends-approve, Ends-execute}

module _ (env : Components) (verifier : String) where
  Ends-enter_if_needed : (target : LoopStatus) → Ends (Plan.enter_if_needed env verifier target)
  unfolding Plan.enter_if_needed
  Ends-enter_if_needed target = search small_ends depth 12

  Ends-after_execute : (r : Option (ExecutionResult × ℕ)) → Ends (Plan.after_execute env verifier r)
  unfolding Plan.after_execute
  Ends-after_execute none = search small_ends depth 12
  Ends-after_execute (some (r, a)) = search small_ends

  Ends-run_step : (step : PlanStep) → Ends (Plan.run_step env verifier step)
  unfolding Plan.run_step
  Ends-run_step step = Ends-bind _ _ (Ends-execute env step) Ends-after_execute

  Ends-run_approved : (step : PlanStep) (b : Bool) → Ends (Plan.run_approved env verifier step b)
  unfolding Plan.run_approved
  Ends-run_approved step true = Ends-run_step step
  Ends-run_approved step false = search small_ends

  Ends-fresh : (step : PlanStep) → Ends (Plan.fresh_execution env verifier step)
  unfolding Plan.fresh_execution
  Ends-fresh step =
      search (small_ends, Ends-approve, Ends-run_approved, Ends-run_step, Ends-enter_if_needed)
        depth 12

  Ends-pending :
      (step : PlanStep) (e : ExecutionResult) → Ends (Plan.pending_result env verifier step e)
  unfolding Plan.pending_result
  Ends-pending step e = search small_ends depth 12

  Ends-prepare_step : (step : PlanStep) → Ends (Plan.prepare_step env verifier step)
  unfolding Plan.prepare_step
  Ends-prepare_step step = search (small_ends, Ends-fresh, Ends-pending) depth 12

  Ends-verify_step :
      (index : ℕ) (step : PlanStep) (e : ExecutionResult) (a : ℕ)
      → Ends (Plan.verify_step env verifier index step e a)
  unfolding Plan.verify_step
  Ends-verify_step index step e a = search (small_ends, Ends-enter_if_needed) depth 24

  Ends-plan_rejected : Ends (Plan.plan_rejected env verifier)
  unfolding Plan.plan_rejected
  Ends-plan_rejected = search small_ends depth 12

  Ends-prepared :
      (step : PlanStep) (steps : List PlanStep) (index : ℕ)
      → Ends (Plan.execute_steps env verifier steps (suc index))
      → (r : Plan.Prepared)
      → Ends (
          Plan.after_prepare r λ e a. do
            passed ← Plan.verify_step env verifier index step e a
            if passed
                then Plan.execute_steps env verifier steps (suc index)
                else Plan.plan_rejected env verifier)
  Ends-prepared step steps index rest (Plan.ready e a) =
      Ends-bind _ _ (Ends-verify_step index step e a)
        λ passed. Ends-if passed _ _ rest Ends-plan_rejected
  Ends-prepared step steps index rest (Plan.ended o) = search small_ends

  Ends-execute_steps :
      (steps : List PlanStep) (index : ℕ) → Ends (Plan.execute_steps env verifier steps index)
  unfolding Plan.execute_steps
  Ends-execute_steps [] index = search small_ends
  Ends-execute_steps (step ∷ steps) index =
      let rest = Ends-execute_steps steps (suc index) in
      Ends-bind _ _ (search small_ends) λ _. Ends-bind _ _ (Ends-boundary env) λ stopped.
        Ends-if stopped _ _ (search small_ends)
          (Ends-bind _ _ (Ends-prepare_step step) (Ends-prepared step steps index rest))

  pub Ends-execute_plan : (plan : LoopPlan) → Ends (Plan.execute_plan env verifier plan)
  unfolding Plan.execute_plan
  Ends-execute_plan plan = search (small_ends, Ends-execute_steps) depth 12

module _ (env : Components) where
  Ends-complete : Ends (Plan.complete env)
  unfolding Plan.complete
  Ends-complete = search small_ends depth 12

  Ends-ask_human : (i : Option HumanInteractionRequest) → Ends (Plan.ask_human env i)
  unfolding Plan.ask_human
  Ends-ask_human none = search small_ends
  Ends-ask_human (some i) = search (small_ends, Ends-request_human) depth 12

  Ends-follow_completion :
      (a : CompletionAction) (i : Option HumanInteractionRequest)
      → Ends (Plan.follow_completion env a i)
  unfolding Plan.follow_completion
  Ends-follow_completion CompletionAction.accept i = Ends-complete
  Ends-follow_completion CompletionAction.replan i = search small_ends depth 12
  Ends-follow_completion CompletionAction.request_human i = Ends-ask_human i
  Ends-follow_completion CompletionAction.stop i = search small_ends depth 12

  Ends-evaluate :
      (f : ℕ → LoopContext → Awaited CompletionDecision) → Ends (Plan.evaluate_completion env f)
  unfolding Plan.evaluate_completion
  Ends-evaluate f = search (small_ends, Ends-follow_completion) depth 24

  pub Ends-finish : (o : Plan.PlanOutcome) → Ends (Plan.finish_plan_outcome env o)
  unfolding Plan.finish_plan_outcome Plan.finish_completed
  Ends-finish Plan.PlanOutcome.stopped = search small_ends
  Ends-finish Plan.PlanOutcome.replan = search small_ends
  Ends-finish Plan.PlanOutcome.completed =
      search (small_ends, Ends-complete, Ends-evaluate) depth 12
