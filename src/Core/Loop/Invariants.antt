-- ===== src/Core/Loop/Invariants.antt =====
-- The rules of an invariant for whole runs. `Base` covers the actions that start no attempt and no
-- cycle, `Full` all of `_drive`.
pub mod Emit
pub mod Base
pub mod Full
pub mod Plans
pub mod Runs
