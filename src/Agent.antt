-- ===== src/Agent.antt =====
-- The agent loop's deterministic parts, src/coding_harness/agent.
pub mod Stopping
