-- ===== src/Persistence.antt =====
-- What the program keeps in its database, src/coding_harness/persistence.
pub mod Lease
pub mod LeaseModels
