-- ===== src/Workspace.antt =====
-- The paths of a repository, src/coding_harness/workspace.
pub mod Paths
