-- ===== src/Core/Loop/Ends/Cycle.antt =====
-- The rounds of `_run_cycles` end: each that goes on has counted a cycle.
use matterloop.Base.{
  ◌≡◌, refl, ◌≢◌, ℕ, zero, suc, ◌+◌, ◌≤◌, ◌<◌, arith, String, Bool, true, false, leb, if◌then◌else◌,
}
use matterloop.Core.Context.{
  LoopError, LoopRequest, Outcome, returns, raises, out_of_fuel, loop_blocked, Plan as LoopPlan,
}
use matterloop.Core.Loop.Monad
use matterloop.Core.Loop.Monad.{M, LoopState, ◌>>=◌, ◌>>◌, pure, get_context, modify}
use matterloop.Core.Loop.Components.{Components}
use matterloop.Core.Loop.Await.{stop_at_safe_boundary}
use matterloop.Core.Status.{LoopStatus, StopReason}
use matterloop.Core.Loop.Drive
use matterloop.Core.Loop.Checkpoint
use matterloop.Core.Loop.Invariants.Base.{Keeps-boundary}
use matterloop.Core.Loop.Invariants.Runs.{
  Keeps-enter_planning, Keeps-call_planner, Keeps-follow_plan,
}
use matterloop.Core.Loop.Ends.{Ends, ends_and_then}
use matterloop.Core.Loop.Ends.Small.{small_ends}
use matterloop.Core.Loop.Ends.Plan.{Ends-execute_plan, Ends-finish}
use matterloop.Core.Loop.Ends.Counters.{AtLeast, counters_full}

-- What holds after a block that returned, from what holds after its rest.
after_returned :
    {A B : Type 0} (P : LoopState → Type 0) (r : Outcome LoopError A) (f : A → M B) (s : LoopState)
    (v : B)
    → (Monad.and_then r f s).0 ≡ returns v
    → ((a : A) → r ≡ returns a → (f a s).0 ≡ returns v → P (f a s).1)
    → P (Monad.and_then r f s).1
after_returned P (returns a) f s v e k = k a refl e
after_returned P (raises x) f s v e k = cc

not_returned :
    {A : Type 0} (r : Outcome LoopError A) (s : LoopState)
    → (Monad.and_then r (λ _ t. (returns true, t)) s).0 ≢ returns false
not_returned (returns a) s e = cc
not_returned (raises x) s e = cc

module _ (env : Components) (planner verifier : String) where
  Ends-request_plan : Ends (Drive.request_plan env planner verifier)
  unfolding Drive.request_plan Drive.enter_planning Drive.call_planner
  Ends-request_plan = search small_ends depth 24

  Ends-adopt : (plan : LoopPlan) → Ends (Drive.adopt_plan env planner verifier plan)
  unfolding Drive.adopt_plan
  Ends-adopt plan = search (small_ends, Ends-execute_plan, Ends-finish) depth 24

  Ends-step_limit : Ends (Drive.step_limit_reached env planner verifier)
  unfolding Drive.step_limit_reached
  Ends-step_limit = search small_ends depth 12

  Ends-plan_and_execute : Ends (Drive.plan_and_execute env planner verifier)
  unfolding Drive.plan_and_execute
  Ends-plan_and_execute =
      search (small_ends, Ends-request_plan, Ends-step_limit, Ends-adopt) depth 12

  Ends-cycle_limit : Ends (Drive.cycle_limit_reached env planner verifier)
  unfolding Drive.cycle_limit_reached
  Ends-cycle_limit = search small_ends depth 12

  pub Ends-run_cycle : Ends (Drive.run_cycle env planner verifier)
  unfolding Drive.run_cycle
  Ends-run_cycle = search (small_ends, Ends-cycle_limit, Ends-plan_and_execute) depth 12

  module _ (s : LoopState) where
    -- The cycle of `s` is counted, and the request is that of `s`.
    abbrev Counted : LoopState → Type 0
    Counted = AtLeast s.context.request 0 (s.context.cycle_count + 1)

    request_plan-counts :
        (plan : LoopPlan)
        → (Drive.request_plan env planner verifier s).0 ≡ returns plan
        → Counted (Drive.request_plan env planner verifier s).1
    unfolding Drive.request_plan ◌>>=◌ modify Drive.begin_cycle
    request_plan-counts plan e =
        let entered =
          (Keeps-enter_planning env planner verifier
              (counters_full s.context.request 0 s.context.cycle_count env).base).at
            s
            (record {
              same_request = refl;
              enough_attempts = omega arith;
              enough_cycles = omega arith;
            }) in
        after_returned Counted (Drive.enter_planning env planner verifier s).0 _ _ plan e (λ _ _ _.
          (Keeps-call_planner env
              (counters_full s.context.request 0 (s.context.cycle_count + 1) env) planner
              verifier).at
            _
            (record {
              same_request = entered.same_request;
              enough_attempts = omega arith;
              enough_cycles = ground (arith, entered.enough_cycles);
            }))

    plan_and_execute-counts :
        (v : Bool)
        → (Drive.plan_and_execute env planner verifier s).0 ≡ returns v
        → Counted (Drive.plan_and_execute env planner verifier s).1
    unfolding Drive.plan_and_execute ◌>>=◌
    plan_and_execute-counts v e =
        after_returned Counted (Drive.request_plan env planner verifier s).0 _ _ v e (λ plan got _.
          (Keeps-follow_plan env (counters_full s.context.request 0 (s.context.cycle_count + 1) env)
              planner verifier plan).at
            _ (request_plan-counts plan got))

  -- A round that goes on had a cycle left, and has counted one.
  record GoesOn (r : LoopRequest) (cycles : ℕ) (t : LoopState) : Type 0 where
    same_request : t.context.request ≡ r
    had_cycle : cycles < r.limits.max_cycles
    counted : cycles < t.context.cycle_count

  limit_ends :
      (t : LoopState) → (Drive.cycle_limit_reached env planner verifier t).0 ≢ returns false
  unfolding Drive.cycle_limit_reached ◌>>=◌ pure
  limit_ends t =
      not_returned (Checkpoint.stop env LoopStatus.blocked StopReason.cycle_limit loop_blocked t).0
        (Checkpoint.stop env LoopStatus.blocked StopReason.cycle_limit loop_blocked t).1

  GoesOn-after_boundary :
      (r : LoopRequest) (k : ℕ) (stopped b : Bool) (s : LoopState)
      → leb s.context.request.limits.max_cycles s.context.cycle_count ≡ b
      → AtLeast r 0 k s
      → ((if stopped
            then pure true
            else (if b
                then Drive.cycle_limit_reached env planner verifier
                else Drive.plan_and_execute env planner verifier))
          s).0
        ≡ returns false
      → GoesOn r k
          ((if stopped
              then pure true
              else (if b
                  then Drive.cycle_limit_reached env planner verifier
                  else Drive.plan_and_execute env planner verifier))
            s).1
  unfolding pure
  GoesOn-after_boundary r k true b s g h e = cc
  GoesOn-after_boundary r k false true s g h e = absurd (limit_ends s e)
  GoesOn-after_boundary r k false false s g h e =
      let done = plan_and_execute-counts s false e in
      record {
        same_request = cc (done.same_request, h.same_request);
        had_cycle = ground (arith, g, h.same_request, h.enough_cycles);
        counted = ground (arith, done.enough_cycles, h.enough_cycles);
      }

  run_cycle-GoesOn :
      (r : LoopRequest) (s : LoopState)
      → s.context.request ≡ r
      → (Drive.run_cycle env planner verifier s).0 ≡ returns false
      → GoesOn r s.context.cycle_count (Drive.run_cycle env planner verifier s).1
  unfolding Drive.run_cycle ◌>>=◌ get_context
  run_cycle-GoesOn r s same e =
      let kept =
        (Keeps-boundary env (counters_full r 0 s.context.cycle_count env).base).at s (record {
          same_request = same;
          enough_attempts = omega arith;
          enough_cycles = omega arith;
        }) in
      after_returned (GoesOn r s.context.cycle_count) (stop_at_safe_boundary env s).0 _
        (stop_at_safe_boundary env s).1 false e
        (λ stopped _ e'. GoesOn-after_boundary r s.context.cycle_count stopped _ _ refl kept e')

  ends_after_cycle :
      (r : LoopRequest) (fuel : ℕ) (k : ℕ) (ended : Bool) (t : LoopState)
      → (ended ≡ false → GoesOn r k t)
      → r.limits.max_cycles < suc fuel + k
      → ((s : LoopState)
          → s.context.request ≡ r
          → 1 ≤ fuel
          → r.limits.max_cycles < fuel + s.context.cycle_count
          → (Drive.cycle_rounds env planner verifier fuel s).0 ≢ raises out_of_fuel)
      → ((if ended then pure tt else Drive.cycle_rounds env planner verifier fuel) t).0
        ≢ raises out_of_fuel
  unfolding pure
  ends_after_cycle r fuel k true t g enough next = λ h. cc
  ends_after_cycle r fuel k false t g enough next =
      let on : GoesOn r k t = g refl in
      next t on.same_request (ground (arith, on.had_cycle)) (ground (arith, on.counted))

  pub ends_cycles :
      (r : LoopRequest) (fuel : ℕ) (s : LoopState)
      → s.context.request ≡ r
      → 1 ≤ fuel
      → r.limits.max_cycles < fuel + s.context.cycle_count
      → (Drive.cycle_rounds env planner verifier fuel s).0 ≢ raises out_of_fuel
  unfolding Drive.cycle_rounds ◌>>=◌
  ends_cycles r zero s same some_left enough = omega arith
  ends_cycles r (suc fuel) s same some_left enough =
      ends_and_then (Drive.run_cycle env planner verifier s).0 _ _ (Ends-run_cycle.at s) (λ ended e.
        ends_after_cycle r fuel s.context.cycle_count ended _
          (λ f. run_cycle-GoesOn r s same (cc (e, f))) enough (ends_cycles r fuel))
