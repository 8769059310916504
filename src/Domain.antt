-- ===== src/Domain.antt =====
-- The deterministic governance core, src/coding_harness/domain.
pub mod Enums
pub mod Models
pub mod Text
pub mod Budgets
pub mod Actions
pub mod Policy
pub mod ApprovalModels
pub mod Approvals
pub mod AcceptanceModels
pub mod Acceptance
pub mod Transitions
pub mod StateMachine
