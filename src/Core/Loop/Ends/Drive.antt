-- ===== src/Core/Loop/Ends/Drive.antt =====
-- `_run_cycles` and `_drive` end: `max_cycles + 1` rounds are enough.
use matterloop.Base.{refl, ◌≢◌, arith, String, Bool}
use matterloop.Core.Context.{
  LoopError, fault, interrupted, conflict, resource_limit, loop_stopped, out_of_fuel,
}
use matterloop.Core.Loop.Monad
use matterloop.Core.Loop.Monad.{M, LoopState, ◌>>=◌, ◌>>◌, pure, get_context, modify}
use matterloop.Core.Loop.Components.{Components}
use matterloop.Core.Loop.Drive
use matterloop.Core.Loop.Checkpoint
use matterloop.Core.Loop.Ends.{Ends, Ends-raise, Ends-bind, Ends-try, Ends-finally, ends_rules}
use matterloop.Core.Loop.Ends.Small.{small_ends, Ends-fail}
use matterloop.Core.Loop.Ends.Plan.{Ends-execute_plan, Ends-finish}
use matterloop.Core.Loop.Ends.Cycle.{ends_cycles}

module _ (env : Components) (planner verifier : String) where
  Ends-all_cycles : Ends (Drive.all_cycles env planner verifier)
  unfolding Drive.all_cycles ◌>>=◌ get_context
  Ends-all_cycles = record {
    at = λ s.
        ends_cycles env planner verifier s.context.request _ s refl (omega arith) (omega arith);
  }

  Ends-continue : Ends (Drive.continue_plan env planner verifier)
  unfolding Drive.continue_plan
  Ends-continue = search (small_ends, Ends-execute_plan, Ends-finish) depth 12

  Ends-run_cycles : (b : Bool) → Ends (Drive.run_cycles env planner verifier b)
  unfolding Drive.run_cycles
  Ends-run_cycles b = search (small_ends, Ends-continue, Ends-all_cycles) depth 12

  Ends-check_stable : Ends (Drive.check_stable env planner verifier)
  unfolding Drive.check_stable
  Ends-check_stable = search small_ends depth 12

  Ends-on_cancelled : Ends (Drive.on_cancelled env planner verifier)
  unfolding Drive.on_cancelled
  Ends-on_cancelled = search small_ends depth 12

  Ends-fail_and_raise :
      (e : LoopError) → e ≢ out_of_fuel → Ends {A = Unit} (do Checkpoint.fail env e; Monad.raise e)
  Ends-fail_and_raise e n = Ends-bind _ _ (Ends-fail env e) λ _. Ends-raise e n

  Ends-on_error :
      (e : LoopError) → e ≢ out_of_fuel → Ends (Drive.on_drive_error env planner verifier e)
  unfolding Drive.on_drive_error
  Ends-on_error loop_stopped n = search small_ends
  Ends-on_error (fault interrupted) n = Ends-on_cancelled
  Ends-on_error (fault conflict) n = search small_ends
  Ends-on_error (fault (resource_limit m)) n = search small_ends depth 12
  Ends-on_error out_of_fuel n = absurd (n refl)
  Ends-on_error e n = Ends-fail_and_raise _ n

  pub Ends-drive : (b : Bool) → Ends (Drive.drive env planner verifier b)
  unfolding Drive.drive
  Ends-drive b =
      Ends-bind _ _
        (Ends-finally _ _ (
          Ends-try _ _ (search (small_ends, Ends-run_cycles, Ends-check_stable) depth 12)
            Ends-on_error))
        (λ _. search ends_rules)
