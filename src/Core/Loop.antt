-- ===== src/Core/Loop.antt =====
-- matterloop-core/src/python/matterloop_core/loop/controller.py, `AgentLoop`.
-- A method is an action on a `LoopState` that returns or raises (`Monad`). What the controller is
-- given (planners, executors, verifiers, store, policy, publisher, gate, retry policy, evaluator,
-- clocks) is a record of functions (`Components`), each of which takes the number of queries made
-- before, so that it may answer differently each time.
pub mod Monad
pub mod Components
pub mod Checkpoint
pub mod Await
pub mod Execute
pub mod Plan
pub mod Drive
pub mod Ends
pub mod Entry
pub mod Response
pub mod Keeps
pub mod Neutral
pub mod Invariants
pub mod Budget
pub mod History
pub mod Revisions
pub mod Repeated
pub mod Uncertain
mod Samples
mod Tests
