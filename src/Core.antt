-- ===== src/Core.antt =====
-- matterloop-core: the loop's states, its context and its controller.
pub mod Status
pub mod Context
pub mod Loop
