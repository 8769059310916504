-- ===== src/Persistence/Lease/Table.antt =====
-- The rows of the leases: what `_lease_from_row`, `_open_lease` and `inspect` read, and the
-- statements of src/coding_harness/persistence/lease.py on the tables of
-- src/coding_harness/persistence/sql/003_execution_lease.sql.
use ai_coding_agent_harness.Base.{
  ℕ, String, Bool, true, false, not, ◌&&◌, ◌||◌, none, some, List, [], ◌∷◌, map, find_first, select,
  any, all, length, ltb, leb, ◌==◌, nat_comparable, text_comparable, if◌then◌else◌,
}
use ai_coding_agent_harness.Domain.Text.{is_text}
use ai_coding_agent_harness.Persistence.LeaseModels.{
  value_error, lease_persistence_error, overflow_error, lease_conflict, read, refused, unreadable,
  changed, LeaseStatus, LeaseError, ExecutionLease, AuditEvent, Database, Query, Statement,
  purpose_comparable, lease_status_comparable,
}

-- `_lease_from_row`: what it checks.
unfoldable pub lease_is_valid : ExecutionLease → Bool
lease_is_valid l =
    (is_text l.lease_id && (is_text l.task_id && (is_text l.run_id && is_text l.owner_identity)))
    && (leb l.acquired_at l.last_progress_at && ltb 0 l.revision)

-- `status IN ('ACTIVE', 'RECOVERY_PENDING')`
unfoldable pub is_open : ExecutionLease → Bool
is_open l = (l.status == LeaseStatus.active) || (l.status == LeaseStatus.recovery_pending)

abbrev pub has_id : String → ExecutionLease → Bool
has_id lease_id l = l.lease_id == lease_id

unfoldable pub from_row : ExecutionLease → Query
from_row l = if lease_is_valid l then read (some l) else unreadable lease_persistence_error

unfoldable pub one_row : List ExecutionLease → Query
one_row [] = read none
one_row (l ∷ []) = from_row l
one_row _ = unreadable lease_persistence_error

-- `_open_lease`, which is `current`.
unfoldable pub open_lease : Database → Query
open_lease db = one_row (select is_open db.leases)

unfoldable pub inspect : Database → String → Query
inspect db lease_id =
    if is_text lease_id
    then elim (find_first (has_id lease_id) db.leases) [ none ↦ read none | some l ↦ from_row l ]
    else unreadable value_error

-- The `CHECK`s of the table on numbers, and a number that the database can hold.
unfoldable pub row_checks : ExecutionLease → Bool
row_checks l = leb l.acquired_at l.last_progress_at && ltb 0 l.revision

unfoldable pub fits : ℕ → Bool
fits n = ltb n 9223372036854775808

-- `INSERT INTO execution_leases`, with the primary key, the foreign key, the checks and the unique
-- index on the open slot.
unfoldable pub insert_lease : Database → ExecutionLease → Statement
insert_lease db l =
    if not (fits l.acquired_at)
    then refused overflow_error
    else if not (any (has_id l.lease_id) db.leases)
        && (any (λ t. t == l.task_id) db.tasks
            && (row_checks l && not (is_open l && any is_open db.leases)))
    then changed (record db { leases = l ∷ db.leases })
    else refused lease_conflict

abbrev pub rewrite_row :
    (ExecutionLease → Bool) → (ExecutionLease → ExecutionLease) → ExecutionLease → ExecutionLease
rewrite_row where_row change l = elim (where_row l) [ true ↦ change l | false ↦ l ]

-- `UPDATE execution_leases`, and the test of its row count.
unfoldable pub update_lease :
    Database → (ExecutionLease → Bool) → (ExecutionLease → ExecutionLease) → LeaseError → Statement
update_lease db where_row change on_check =
    if not (all row_checks (map (rewrite_row where_row change) db.leases))
    then refused on_check
    else if length (select where_row db.leases) == 1
    then changed (record db { leases = map (rewrite_row where_row change) db.leases })
    else refused lease_conflict

-- `_audit`
unfoldable pub add_audit : Database → AuditEvent → LeaseError → Statement
add_audit db event on_key =
    if not (fits event.occurred_at)
    then refused overflow_error
    else if any (λ t. t == event.task_id) db.tasks
    then changed (record db { audit_events = event ∷ db.audit_events })
    else refused on_key
