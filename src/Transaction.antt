-- ===== src/Transaction.antt =====
-- The apply transaction, src/coding_harness/transaction.
pub mod Models
pub mod Journal
