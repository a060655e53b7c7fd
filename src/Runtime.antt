-- ===== src/Runtime.antt =====
-- matterloop-runtime: the execution ledger, the idempotent invoker and the transactional executor.
pub mod Ledger
pub mod Idempotency
pub mod Transactional
pub mod Queue
pub mod Runs
