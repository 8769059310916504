-- ===== src/Persistence/Lease.antt =====
-- The lease on the one slot of execution: src/coding_harness/persistence/lease.py, over the table
-- of src/coding_harness/persistence/sql/003_execution_lease.sql. A database is its rows, and a
-- transaction that fails leaves them as they were, so an error carries no database. A time or a
-- revision that is checked not to be negative is a natural number, and the checks of Python's
-- types are in the types. Errors of the file system and revisions of 2^63 are not modelled.
mod Table
pub mod Steps
pub mod Answers
pub mod Exclusive
pub mod Readback
pub mod Fencing
pub mod Lost
mod Examples
unfoldable pub use Table.*
use ai_coding_agent_harness.Base.{
  ℕ, ◌+◌, ◌*◌, String, Bool, true, false, not, ◌&&◌, ◌||◌, Option, none, some, List, [], ◌∷◌, map,
  find_first, select, any, all, length, ltb, leb, ◌==◌, Comparable, comparable_by, nat_comparable,
  text_comparable, if◌then◌else◌,
}
use ai_coding_agent_harness.Domain.Enums.{TaskState}
use ai_coding_agent_harness.Domain.Text.{is_text}
use ai_coding_agent_harness.Persistence.LeaseModels.{
  raised, value_error, lease_persistence_error, overflow_error, lease_conflict, read, done, refused,
  unreadable, changed, LeasePurpose, LeaseStatus, LeaseError, ReleaseEvidence, ExecutionLease,
  AuditEvent, Database, Query, Statement, Result, purpose_comparable, lease_status_comparable,
  permits_release,
}

unfoldable pub new_lease :
    String → String → String → String → LeasePurpose → TaskState → ℕ → ExecutionLease
new_lease lease_id task_id run_id owner_identity purpose phase now = record {
  lease_id = lease_id;
  task_id = task_id;
  run_id = run_id;
  owner_identity = owner_identity;
  purpose = purpose;
  acquired_at = now;
  last_progress_at = now;
  phase = phase;
  status = LeaseStatus.active;
  revision = 1;
}

-- `SET status = …, revision = revision + 1`, and the `WHERE` that finds the row of a status.
unfoldable pub moved_to : LeaseStatus → ExecutionLease → ExecutionLease
moved_to status l = record l { status = status; revision = l.revision + 1 }

unfoldable pub progressed : TaskState → ℕ → ExecutionLease → ExecutionLease
progressed phase now l = record l {
  last_progress_at = now;
  phase = phase;
  revision = l.revision + 1;
}

unfoldable pub row_is : LeaseStatus → String → ℕ → ExecutionLease → Bool
row_is status lease_id revision l =
    (l.lease_id == lease_id) && ((l.status == status) && (l.revision == revision))

unfoldable pub owned_row_is : String → LeaseStatus → String → ℕ → ExecutionLease → Bool
owned_row_is owner status lease_id revision l =
    (l.owner_identity == owner) && row_is status lease_id revision l

-- The test that a heartbeat and a release share.
unfoldable pub is_held : ExecutionLease → String → String → ℕ → ℕ → Bool
is_held l lease_id owner_identity expected_revision now =
    (l.status == LeaseStatus.active)
    && ((l.lease_id == lease_id)
        && ((l.owner_identity == owner_identity)
            && ((l.revision == expected_revision) && leb l.last_progress_at now)))

-- The result of the last statement of an operation.
unfoldable pub committed : ExecutionLease → Statement → Result
committed l (changed db) = done l db
committed l (refused e) = raised e

-- An update and its record in the audit.
unfoldable pub audited : ExecutionLease → AuditEvent → LeaseError → Statement → Result
audited l event on_key (changed db) = committed l (add_audit db event on_key)
audited l event on_key (refused e) = raised e

unfoldable pub acquire :
    Database → String → String → String → String → LeasePurpose → TaskState → ℕ → Result
acquire db lease_id task_id run_id owner_identity purpose phase now =
    if is_text lease_id
      && (is_text task_id
          && (is_text run_id && (is_text owner_identity && (purpose == LeasePurpose.execution))))
    then elim (open_lease db) [
      | unreadable e ↦ raised e
      | read (some current) ↦ raised lease_conflict
      | read none ↦
          let l = new_lease lease_id task_id run_id owner_identity purpose phase now in
          committed l (insert_lease db l)
    ]
    else raised value_error

unfoldable pub heartbeat : Database → String → String → ℕ → TaskState → ℕ → Result
heartbeat db lease_id owner_identity expected_revision phase now =
    if is_text lease_id && (is_text owner_identity && ltb 0 expected_revision)
    then elim (open_lease db) [
      | unreadable e ↦ raised e
      | read none ↦ raised lease_conflict
      | read (some current) ↦
          if not (is_held current lease_id owner_identity expected_revision now)
          then raised lease_conflict
          else if not (fits now)
          then raised overflow_error
          else committed (progressed phase now current) (
              update_lease db
                (owned_row_is owner_identity LeaseStatus.active lease_id expected_revision)
                (progressed phase now) lease_persistence_error)
    ]
    else raised value_error

-- `now - last_progress_at <= heartbeat_timeout`, with both sides moved.
unfoldable pub is_recent : ℕ → ExecutionLease → ℕ → Bool
is_recent heartbeat_timeout l now = leb now (heartbeat_timeout + l.last_progress_at)

unfoldable pub mark_expired : ℕ → Database → ℕ → Result
mark_expired heartbeat_timeout db now = elim (open_lease db) [
  | unreadable e ↦ raised e
  | read none ↦ raised lease_conflict
  | read (some current) ↦
      if not (current.status == LeaseStatus.active) || is_recent heartbeat_timeout current now
      then raised lease_conflict
      else audited (moved_to LeaseStatus.recovery_pending current)
          (record {
            task_id = current.task_id;
            event_kind = "EXECUTION_LEASE_STALE";
            subject_identity = current.lease_id;
            occurred_at = now;
          })
          lease_persistence_error
          (update_lease db (row_is LeaseStatus.active current.lease_id current.revision)
            (moved_to LeaseStatus.recovery_pending) lease_persistence_error)
]

unfoldable pub release : Database → String → String → ℕ → ReleaseEvidence → ℕ → Result
release db lease_id owner_identity expected_revision evidence now =
    if not (is_text lease_id && (is_text owner_identity && ltb 0 expected_revision))
    then raised value_error
    else if not (permits_release evidence)
    then raised lease_conflict
    else elim (open_lease db) [
      | unreadable e ↦ raised e
      | read none ↦ raised lease_conflict
      | read (some current) ↦
          if not (is_held current lease_id owner_identity expected_revision now)
          then raised lease_conflict
          else audited (moved_to LeaseStatus.released current)
              (record {
                task_id = current.task_id;
                event_kind = "EXECUTION_LEASE_RELEASED";
                subject_identity = current.lease_id;
                occurred_at = now;
              })
              lease_persistence_error
              (update_lease db
                (owned_row_is owner_identity LeaseStatus.active lease_id expected_revision)
                (moved_to LeaseStatus.released) lease_persistence_error)
    ]

-- The test of the lease that a recovery takes over.
unfoldable pub may_take_over : ExecutionLease → String → String → String → ℕ → Bool
may_take_over pending lease_id task_id run_id expected_pending_revision =
    (pending.status == LeaseStatus.recovery_pending)
    && ((pending.task_id == task_id)
        && ((pending.run_id == run_id)
            && ((pending.revision == expected_pending_revision)
                && not (pending.lease_id == lease_id))))

-- The insertion that follows the release of the pending lease.
unfoldable pub taken_over : ExecutionLease → ℕ → Statement → Result
taken_over l now (refused e) = raised e
taken_over l now (changed db) =
    audited l
      (record {
        task_id = l.task_id;
        event_kind = "EXECUTION_LEASE_RECOVERY_ACQUIRED";
        subject_identity = l.lease_id;
        occurred_at = now;
      })
      lease_conflict (insert_lease db l)

unfoldable pub acquire_recovery :
    Database → String → String → String → String → TaskState → ℕ → ℕ → Result
acquire_recovery db lease_id task_id run_id owner_identity phase expected_pending_revision now =
    if is_text lease_id
      && (is_text task_id
          && (is_text run_id && (is_text owner_identity && ltb 0 expected_pending_revision)))
    then elim (open_lease db) [
      | unreadable e ↦ raised e
      | read none ↦ raised lease_conflict
      | read (some pending) ↦
          if not (may_take_over pending lease_id task_id run_id expected_pending_revision)
          then raised lease_conflict
          else taken_over
              (new_lease lease_id task_id run_id owner_identity LeasePurpose.recovery phase now) now
              (update_lease db
                (row_is LeaseStatus.recovery_pending pending.lease_id expected_pending_revision)
                (moved_to LeaseStatus.released) lease_conflict)
    ]
    else raised value_error

-- A call of an operation that writes, what it returns and the database that it leaves.
pub data Call : Type 0 where
  call_acquire : String → String → String → String → LeasePurpose → TaskState → ℕ → Call
  call_heartbeat : String → String → ℕ → TaskState → ℕ → Call
  call_mark_expired : ℕ → Call
  call_release : String → String → ℕ → ReleaseEvidence → ℕ → Call
  call_acquire_recovery : String → String → String → String → TaskState → ℕ → ℕ → Call

unfoldable pub answer : ℕ → Database → Call → Result
answer timeout db (call_acquire lease_id task_id run_id owner purpose phase now) =
    acquire db lease_id task_id run_id owner purpose phase now
answer timeout db (call_heartbeat lease_id owner revision phase now) =
    heartbeat db lease_id owner revision phase now
answer timeout db (call_mark_expired now) = mark_expired timeout db now
answer timeout db (call_release lease_id owner revision evidence now) =
    release db lease_id owner revision evidence now
answer timeout db (call_acquire_recovery lease_id task_id run_id owner phase revision now) =
    acquire_recovery db lease_id task_id run_id owner phase revision now

unfoldable pub database_after : Database → Result → Database
database_after db (done l db') = db'
database_after db (raised e) = db

unfoldable pub run_calls : ℕ → Database → List Call → Database
run_calls timeout db [] = db
run_calls timeout db (c ∷ cs) = run_calls timeout (database_after db (answer timeout db c)) cs
