-- ===== src/Lib.antt =====
-- MatterLoop: the loop kernel, the execution ledger, the queue of runs, the checkpoint store, the task
-- graph of a team and the usage ledger, with what is proved about them.
--
-- MatterLoop runs an agent as a loop: a planner makes a plan, executors perform its steps, a verifier
-- judges each result, and a completion evaluator or a human decides what comes after the plan. The
-- controller persists a checkpoint before each event, so a run survives a crash. The runtime's
-- execution ledger does the same for one call of a tool: it is recorded, executed and committed, and
-- a repeated call is answered from the record. A team of agents works on a graph of tasks that depend
-- on each other: a task is released when its dependencies have succeeded, and blocked when one fails.
-- What the work consumes is reserved and settled in a ledger of scopes, each with its limits.
--
-- The parts, and the file of each:
--   * Core/Status.antt: the states, stop reasons and resume modes, and the transition table
--     (matterloop-core/src/python/matterloop_core/state/machine.py).
--   * Core/Context.antt: the records and enums of context/models.py, context/human.py,
--     control/decisions.py, events/models.py and exceptions/errors.py of the same package.
--   * Core/Loop.antt and its children: `AgentLoop` of loop/controller.py.
--     Monad has the state, the errors and `try`; Components what `AgentLoop.__init__` receives;
--     Checkpoint `_transition`, `_stop`, `_fail`, `_checkpoint_and_emit_many` and the timers; Await
--     `_await_component` and `_stop_at_safe_boundary`; Execute `_execute`, `_approve` and
--     `_request_human_interaction`; Plan `_execute_plan` and `_finish_plan_outcome`; Drive
--     `_run_cycles` and `_drive`; Entry `run`, `resume`, `recover` and `cancel`; Response
--     `submit_human_response`. Keeps, Neutral and Invariants carry a predicate on states through
--     every action; Budget, History and Revisions use them; Ends is about the fuel,
--     Repeated about a response that comes twice, Uncertain about recovery in an execution.
--   * Runtime/Ledger.antt: `InMemoryExecutionLedger` of
--     matterloop-runtime/src/python/matterloop_runtime/ledger.py.
--   * Runtime/Idempotency.antt: `IdempotentInvoker` of idempotency.py.
--   * Runtime/Transactional.antt: `execute`, `recover` and `reconcile` of `TransactionalExecutor` in
--     transactional.py; its `prepare` and `commit` are the ledger's. Stages is about the three stages,
--     Pending and Recovery about `recover`.
--   * Runtime/Queue.antt and its children: `InMemoryQueueBackend` of queueing.py. Counts, Reclaim and
--     Places are about the leases, Exclusive about the one place of a run, Present about its command
--     not being lost, Stopped and Cancelled about cancelled runs, Stale about leases that have run out,
--     Dropped about a cancelled run whose lease is released. Calls has the sequences of calls.
--   * Runtime/Runs.antt and its children: `InMemoryRunRepository` and `QueueRuntime` of the same file.
--     Update has `_update` between other writers, Methods `submit`, `cancel` and `resume`; Legal and
--     Writes are about what is written, Outcomes, Again and Quiet about what an answer means.
--   * Memory/Checkpoints.antt: `InMemoryCheckpointStore` of
--     matterloop-memory/src/python/matterloop_memory/in_memory.py, and the histories it implements.
--   * Agents/Tasks.antt: the records of tasks of
--     matterloop-agents/src/python/matterloop_agents/collaboration/models.py.
--   * Agents/TaskGraph.antt and its children: `TaskGraph` of collaboration/task_graph.py. TaskGraph has
--     the state, `_refresh_pending` and the way a task is changed, Methods the public methods, Make the
--     constructor from new tasks with its cycle check. Order, Valid and Settled carry an invariant
--     through every method; Runs has the sequences of calls, Live what follows for them.
--   * Policies/Usage.antt and its children: `UsageAmount` and `UsageLedger` of
--     matterloop-policies/src/python/matterloop_policies/usage.py and `BudgetLimits` of budget.py.
--     Ledger has the methods; Sums and Limits are about amounts and the test of the limits, Kept about
--     the bounds that it stands for, Within, Settle and Calls about the bounds through every method,
--     Undo and Rollback about giving back.
--   * Policies/Budget.antt: `BudgetPolicy.can_continue` of budget.py.
--   * Base.antt and its children: shared names, tests on numbers, lists, dictionaries, texts.
--
-- How code becomes a definition. An action of the controller is a function from a state to an outcome
-- and a state (`M` of Core/Loop/Monad.antt). The state has the context of the run, the set of
-- cancelled runs, a counter of queries, and four logs that the code does not have: the checkpoints
-- that the store has accepted, the states entered by `_transition`, the events published, and the
-- calls of components. What is outside the
-- controller (planners, executors, verifiers, gate, policies, store, publisher, clock, other threads)
-- is a function of the number of the query, so each query may be answered differently. An awaited
-- task is the list of the supervision rounds for which it is not done, and then its outcome; the
-- rounds see heartbeats, cancellation and the time-out as the code does. Times are whole numbers;
-- subtraction stops at 0 where the code has `max(0, elapsed)`. A lookup of a registry or a dictionary
-- that fails raises as in the code. A time of the queue that lies after `datetime.max` raises
-- `OverflowError`, after what the code has changed by then.
--
-- Loops: the steps of a plan and the rounds of a task are structural recursion. The `while True` loops
-- of `_run_cycles` and `_execute` run on fuel, `max_cycles + 1` and `max_attempts + 1` rounds: a round
-- that goes on has raised the counter that its guard compares with the limit. Running out is an
-- error of its own, `out_of_fuel`, that the handlers pass on. `_refresh_pending` has one round for each
-- entry of its deque and each dependent of a pending task, since a round takes an entry and adds the
-- dependents of a task only when that task ceases to be pending. The cycle check has one round more
-- than there are tasks, since no task is visited twice. `_update` makes the 16 rounds of the code, and
-- then raises as the code does.
--
-- A call of `invoke` or of `execute` runs to its end: what other calls do while it waits for the
-- executor is not modelled.
--
-- Not modelled: the text of logs and event details, the validation in the constructors of the
-- records except `LoopLimits`, the JSON codec of checkpoints, the in-process event publisher, the
-- restoring of a task graph from a snapshot and its sorted lists, the score of a verification, the
-- queries of the queue runtime (`list`, `wait`, `list_events`), the worker that runs the controller
-- under a lease, the rest of the packages for agents and for policies (the team orchestrator,
-- metering, snapshots of usage, permissions, tenancy, security), and the packages for tools,
-- models, observability, presets and integrations, and the stores of memories.
mod Base
pub mod Core
pub mod Runtime
pub mod Agents
pub mod Policies
pub mod Memory
