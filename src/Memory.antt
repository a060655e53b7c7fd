-- ===== src/Memory.antt =====
-- matterloop-memory: the in-memory checkpoint store.
pub mod Checkpoints
