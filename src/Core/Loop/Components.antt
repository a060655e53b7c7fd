-- ===== src/Core/Loop/Components.antt =====
-- What `AgentLoop.__init__` receives (protocols/interfaces.py) and what the event loop does to an
-- awaited task, as functions. The first argument is the number of the query.
use matterloop.Base.{ℕ, String, List, [], ◌∷◌, Option, none, some, Bool, elem}
use matterloop.Base.Dict.{Dict}
use matterloop.Base.{if◌then◌else◌}
use matterloop.Core.Context.{
  LoopContext, LoopEvent, LoopEventType, LoopError, Outcome, returns, raises, Fault, fault, Plan,
  PlanStep, ExecutionResult, VerificationResult, ApprovalDecision, RetryDecision,
  CompletionDecision, ExternalStateRef, component_not_found,
}
use matterloop.Core.Loop.Monad.{M, ◌>>=◌, ◌>>◌, pure, raise, next_tick}

-- What one `asyncio.wait` round of `_await_component` sees before the task is done: the time-out of
-- the round, with the test of the heartbeat clock, or the cancellation of the controller's own task.
pub data Poll : Type 0 where
  waited : (heartbeat_due : Bool) → Poll
  interrupt : Poll

-- A task: the rounds for which it is not done, and then its result.
pub record Awaited (A : Type 0) : Type 0 where
  pub polls : List Poll
  pub outcome : Outcome Fault A

pub record Components : Type 0 where
  pub planners : String → Option (ℕ → LoopContext → Awaited Plan)
  pub executors : String → Option (ℕ → PlanStep → LoopContext → Awaited ExecutionResult)
  pub verifiers :
      String → Option (ℕ → PlanStep → ExecutionResult → LoopContext → Awaited VerificationResult)
  pub approval_gate : ℕ → PlanStep → LoopContext → Awaited ApprovalDecision
  pub retry_policy : ℕ → LoopError → ℕ → LoopContext → Outcome Fault RetryDecision
  pub completion_evaluator : Option (ℕ → LoopContext → Awaited CompletionDecision)
  pub can_continue : ℕ → LoopContext → Outcome Fault Bool
  pub backoff : ℕ → ℕ → Awaited Unit
  -- `checkpoint_store.save(context, expected_revision=...)`
  pub save : ℕ → LoopContext → ℕ → Outcome Fault ℕ
  pub load : ℕ → String → Outcome Fault (Option LoopContext)
  -- `events.publish`, and `events.prepare_checkpoint` where the publisher is a `CheckpointPreparer`.
  pub publish : ℕ → LoopEvent → Outcome Fault Unit
  pub prepare :
      Option
        (ℕ → LoopContext → List LoopEventType → Outcome Fault (Dict String × List ExternalStateRef))
  -- The wall clock, and the runs for which other threads have called `cancel` since the last query.
  pub now : ℕ → ℕ
  pub cancels : ℕ → List String
  -- `uuid4().hex`
  pub new_id : ℕ → String
  -- `f"{type(exc).__name__}: {exc}"`
  pub describe : LoopError → String

module _ {A : Type 0} where
  -- A component's exception goes through the controller unchanged.
  unfoldable pub lift : Outcome Fault A → M A
  unfolding pure raise
  lift (returns a) = pure a
  lift (raises f) = raise (fault f)

  -- `registry.get(name)`
  unfoldable pub resolve : Option A → M A
  unfolding pure raise
  resolve none = raise component_not_found
  resolve (some a) = pure a

-- `_cancelled_runs.add(run_id)`
unfoldable pub add_cancel : String → List String → List String
add_cancel r runs = if elem r runs then runs else r ∷ runs

add_cancels : List String → List String → List String
unfolding add_cancel
add_cancels [] runs = runs
add_cancels (r ∷ rs) runs = add_cancels rs (add_cancel r runs)

unfoldable pub receive_cancels : List String → M Unit
unfolding add_cancels
receive_cancels rs s = (returns tt, record s { cancelled_runs = add_cancels rs s.cancelled_runs })

unfoldable pub is_listed : M Bool
is_listed s = (returns (elem s.context.run_id s.cancelled_runs), s)

module _ (env : Components) where
  unfoldable pub read_clock : M ℕ
  read_clock = do t ← next_tick; pure (env.now t)

  -- `_is_cancelled(context.run_id)`, after the requests that have come in from other threads.
  unfoldable pub is_cancelled : M Bool
  is_cancelled = do t ← next_tick; receive_cancels (env.cancels t); is_listed
