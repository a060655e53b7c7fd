-- ===== src/Core/Loop/Ends/Execute.antt =====
-- `_execute` ends: `max_attempts + 1` rounds are enough.
use matterloop.Base.{
  ◌≡◌, refl, ◌≢◌, ℕ, zero, suc, ◌+◌, ◌≤◌, ◌<◌, arith, none, Bool, true, false, leb, if◌then◌else◌,
}
use matterloop.Core.Context.{
  LoopError, LoopRequest, PlanStep, HumanInteractionRequest, ApprovalDecision, RetryAction, raises,
  fault, resource_limit, loop_stopped, out_of_fuel, interrupted, not_resumable, OperationId,
}
use matterloop.Core.Status.{StopReason}
use matterloop.Core.Loop.Monad.{LoopState, ◌>>=◌, ◌>>◌, pure, raise, get_context, modify}
use matterloop.Core.Loop.Components.{Components}
use matterloop.Core.Loop.Execute
use matterloop.Core.Loop.Invariants.Base.{Keeps-boundary}
use matterloop.Core.Loop.Invariants.Full.{Keeps-attempt_body}
use matterloop.Core.Loop.Ends.{Ends, Ends-raise, Ends-bind, Ends-try, Ends-pure, ends_and_then}
use matterloop.Core.Loop.Ends.Small.{small_ends, Ends-boundary, Ends-emit}
use matterloop.Core.Loop.Ends.Counters.{AtLeast, counters_full}

module _ (env : Components) where
  pub Ends-request_human :
      (i : HumanInteractionRequest) (reason : StopReason)
      → Ends (Execute.request_human_interaction env i reason)
  unfolding Execute.request_human_interaction
  Ends-request_human i reason = search small_ends depth 20

  Ends-grant : (step : PlanStep) → Ends (Execute.grant env step)
  unfolding Execute.grant
  Ends-grant step = search small_ends depth 12

  Ends-defer : (step : PlanStep) → Ends (Execute.defer_approval env step)
  unfolding Execute.defer_approval
  Ends-defer step = search (small_ends, Ends-request_human) depth 12

  Ends-follow_approval :
      (step : PlanStep) (d : ApprovalDecision) → Ends (Execute.follow_approval env step d)
  unfolding Execute.follow_approval
  Ends-follow_approval step ApprovalDecision.approved = Ends-grant step
  Ends-follow_approval step ApprovalDecision.deferred = Ends-defer step
  Ends-follow_approval step ApprovalDecision.rejected = search small_ends depth 12

  Ends-ask_approval : (step : PlanStep) → Ends (Execute.ask_approval env step)
  unfolding Execute.ask_approval
  Ends-ask_approval step = search (small_ends, Ends-follow_approval) depth 12

  pub Ends-approve : (step : PlanStep) → Ends (Execute.approve env step)
  unfolding Execute.approve
  Ends-approve step = search (small_ends, Ends-grant, Ends-ask_approval) depth 12

  Ends-dispatch : (step : PlanStep) (a : ℕ) → Ends (Execute.dispatch env step a)
  unfolding Execute.dispatch
  Ends-dispatch step a = search small_ends depth 20

  Ends-backoff : (delay : ℕ) → Ends (Execute.wait_backoff env delay)
  unfolding Execute.wait_backoff
  Ends-backoff zero = search small_ends
  Ends-backoff (suc delay) = search small_ends depth 12

  Ends-follow_retry :
      (e : LoopError) (action : RetryAction) (delay : ℕ)
      → e ≢ out_of_fuel
      → Ends (Execute.follow_retry env e action delay)
  unfolding Execute.follow_retry
  Ends-follow_retry e RetryAction.fail delay n = Ends-raise e n
  Ends-follow_retry e RetryAction.replan delay n = search small_ends depth 12
  Ends-follow_retry e RetryAction.retry delay n = search (small_ends, Ends-backoff) depth 12

  Ends-on_exception :
      (a : ℕ) (e : LoopError) → e ≢ out_of_fuel → Ends (Execute.on_exception env a e)
  unfolding Execute.on_exception
  Ends-on_exception a e n =
      let retry : (action : RetryAction) (delay : ℕ)
          → Ends (Execute.follow_retry env e action delay) =
        λ action delay. Ends-follow_retry e action delay n in
      search (small_ends, retry) depth 12

  Ends-on_resource_limit : (e : LoopError) → Ends (Execute.on_resource_limit env e)
  unfolding Execute.on_resource_limit
  Ends-on_resource_limit e = search small_ends depth 12

  Ends-on_error :
      (a : ℕ) (e : LoopError) → e ≢ out_of_fuel → Ends (Execute.on_execution_error env a e)
  unfolding Execute.on_execution_error
  Ends-on_error a (fault (resource_limit m)) n = Ends-on_resource_limit (fault (resource_limit m))
  Ends-on_error a (fault interrupted) n = search small_ends
  Ends-on_error a loop_stopped n = search small_ends
  Ends-on_error a out_of_fuel n = absurd (n refl)
  Ends-on_error a e n = Ends-on_exception a _ n

  Ends-attempt_limit : Ends (Execute.attempt_limit_reached env)
  unfolding Execute.attempt_limit_reached
  Ends-attempt_limit = search small_ends depth 12

  Ends-run_attempt : (step : PlanStep) (a : ℕ) → Ends (Execute.run_attempt env step a)
  unfolding Execute.run_attempt
  Ends-run_attempt step a = Ends-bind _ _ (search small_ends) λ _.
      Ends-bind _ _ (Ends-emit env _) λ _. Ends-try _ _ (Ends-dispatch step a) (Ends-on_error a)

  -- A round counts an attempt.
  run_attempt-counts :
      (step : PlanStep) (a : ℕ) (s : LoopState)
      → AtLeast s.context.request
          (s.context.total_attempts + 1)
          s.context.cycle_count
          (Execute.run_attempt env step a s).1
  unfolding Execute.run_attempt ◌>>=◌ modify Execute.count_attempt
  run_attempt-counts step a s =
      (Keeps-attempt_body env
          (counters_full s.context.request (s.context.total_attempts + 1) s.context.cycle_count env)
          step a).at
        _
        (record { same_request = refl; enough_attempts = omega arith; enough_cycles = omega arith })

  module _ (r : LoopRequest) (fuel : ℕ) (step : PlanStep) (a : ℕ) where
    -- The rounds that are left end wherever one attempt more is counted.
    abbrev RestEnds : Type 0
    RestEnds =
        (s : LoopState)
        → s.context.request ≡ r
        → 1 ≤ fuel
        → r.limits.max_attempts < fuel + s.context.total_attempts
        → (Execute.execute_rounds env fuel step (a + 1) s).0 ≢ raises out_of_fuel

    ends_after_round :
        (round : Execute.Round) (s : LoopState)
        → RestEnds
        → s.context.request ≡ r
        → 1 ≤ fuel
        → r.limits.max_attempts < fuel + s.context.total_attempts
        → (Execute.after_round round (Execute.execute_rounds env fuel step (a + 1)) s).0
          ≢ raises out_of_fuel
    ends_after_round (Execute.finish v) s next same some_left enough = (Ends-pure v).at s
    ends_after_round Execute.again s next same some_left enough = next s same some_left enough

    ends_round :
        (stopped b : Bool) (s : LoopState)
        → leb s.context.request.limits.max_attempts s.context.total_attempts ≡ b
        → RestEnds
        → s.context.request ≡ r
        → r.limits.max_attempts < suc fuel + s.context.total_attempts
        → ((if stopped
              then pure none
              else (if b then Execute.attempt_limit_reached env else (do
                round ← Execute.run_attempt env step a
                Execute.after_round round (Execute.execute_rounds env fuel step (a + 1)))))
            s).0
          ≢ raises out_of_fuel
    unfolding ◌>>=◌ pure
    ends_round true b s e next same enough = λ h. cc
    ends_round false true s e next same enough = Ends-attempt_limit.at s
    ends_round false false s e next same enough =
        let counted = run_attempt-counts step a s in
        ends_and_then (Execute.run_attempt env step a s).0 _ _ ((Ends-run_attempt step a).at s)
          (λ round _.
            ends_after_round round _ next (cc counted.same_request) (ground (arith, same, e))
              (ground (arith, same, counted.enough_attempts)))

  ends_rounds :
      (r : LoopRequest) (fuel : ℕ) (step : PlanStep) (a : ℕ) (s : LoopState)
      → s.context.request ≡ r
      → 1 ≤ fuel
      → r.limits.max_attempts < fuel + s.context.total_attempts
      → (Execute.execute_rounds env fuel step a s).0 ≢ raises out_of_fuel
  unfolding Execute.execute_rounds ◌>>=◌ get_context
  ends_rounds r zero step a s same some_left enough = omega arith
  ends_rounds r (suc fuel) step a s same some_left enough =
      let kept =
        (Keeps-boundary env (counters_full r s.context.total_attempts 0 env).base).at s (record {
          same_request = same;
          enough_attempts = omega arith;
          enough_cycles = omega arith;
        }) in
      ends_and_then _ _ _ ((Ends-boundary env).at s) (λ stopped _.
        ends_round r fuel step a stopped _ _ refl (λ t. ends_rounds r fuel step (a + 1) t)
          kept.same_request (ground (arith, kept.enough_attempts)))

  ends_if_active :
      (b : Bool) (op : OperationId) (step : PlanStep) (s : LoopState)
      → ((do
        if b then pure tt else raise not_resumable
        modify (Execute.activate op)
        Execute.execute_rounds env (suc s.context.request.limits.max_attempts) step 1)
          s).0
        ≢ raises out_of_fuel
  unfolding ◌>>=◌ pure raise modify Execute.activate
  ends_if_active true op step s =
      ends_rounds s.context.request _ step 1 _ refl (omega arith) (omega arith)
  ends_if_active false op step s = λ h. cc

  pub Ends-execute : (step : PlanStep) → Ends (Execute.execute env step)
  unfolding Execute.execute ◌>>=◌ get_context
  Ends-execute step = record { at = λ s. ends_if_active _ _ step s }
