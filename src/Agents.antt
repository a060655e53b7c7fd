-- ===== src/Agents.antt =====
-- The packages under matterloop-agents: so far the collaboration package's task graph.
pub mod Tasks
pub mod TaskGraph
