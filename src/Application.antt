-- ===== src/Application.antt =====
-- The application services, src/coding_harness/application.
pub mod Governance
