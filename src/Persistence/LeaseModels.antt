-- ===== src/Persistence/LeaseModels.antt =====
-- The data of the leases: src/coding_harness/persistence/lease.py, and the tables that it uses.
use ai_coding_agent_harness.Base.{ℕ, String, Bool, ◌&&◌, Option, List, Comparable, comparable_by}
use ai_coding_agent_harness.Domain.Enums.{TaskState}

pub data LeasePurpose : Type 0 where
  execution recovery : LeasePurpose

pub data LeaseStatus : Type 0 where
  active recovery_pending released : LeaseStatus

unfoldable pub LeasePurpose-discrete : Discrete LeasePurpose
LeasePurpose-discrete = hlevel

unfoldable pub LeaseStatus-discrete : Discrete LeaseStatus
LeaseStatus-discrete = hlevel

instance abbrev pub purpose_comparable : Comparable LeasePurpose
purpose_comparable = comparable_by LeasePurpose-discrete

instance abbrev pub lease_status_comparable : Comparable LeaseStatus
lease_status_comparable = comparable_by LeaseStatus-discrete

-- `ValueError`, `LeaseConflict` and `LeasePersistenceError`; and the `OverflowError` of a number
-- that is no 64-bit integer.
pub data LeaseError : Type 0 where
  value_error lease_conflict lease_persistence_error overflow_error : LeaseError

pub record ReleaseEvidence : Type 0 where
  pub container_terminal : Bool
  pub file_effects_terminal : Bool
  pub cleanup_verified : Bool

unfoldable pub permits_release : ReleaseEvidence → Bool
permits_release e = e.container_terminal && (e.file_effects_terminal && e.cleanup_verified)

-- `ExecutionLease`; every row has the one slot that the table admits.
pub record ExecutionLease : Type 0 where
  pub lease_id : String
  pub task_id : String
  pub run_id : String
  pub owner_identity : String
  pub purpose : LeasePurpose
  pub acquired_at : ℕ
  pub last_progress_at : ℕ
  pub phase : TaskState
  pub status : LeaseStatus
  pub revision : ℕ

pub record AuditEvent : Type 0 where
  pub task_id : String
  pub event_kind : String
  pub subject_identity : String
  pub occurred_at : ℕ

-- The tables: the identities of the tasks, the leases and the audit.
pub record Database : Type 0 where
  pub tasks : List String
  pub leases : List ExecutionLease
  pub audit_events : List AuditEvent

-- What a query returns, what a statement does, and what an operation returns.
pub data Query : Type 0 where
  read : Option ExecutionLease → Query
  unreadable : LeaseError → Query

pub data Statement : Type 0 where
  changed : Database → Statement
  refused : LeaseError → Statement

pub data Result : Type 0 where
  done : ExecutionLease → Database → Result
  raised : LeaseError → Result
