-- ===== src/Persistence/Lease/Steps.antt =====
-- What an operation that succeeds does to the rows of the leases.
use ai_coding_agent_harness.Base.{
  ℕ, String, Bool, true, false, ◌&&◌, none, some, List, [], ◌∷◌, map, ◌≡◌, refl, arith, inl, inr,
  select, any, all, nat_comparable, text_comparable, Bool-cases,
}
use ai_coding_agent_harness.Domain.Enums.{TaskState}
use ai_coding_agent_harness.Domain.Text.{is_text}
use ai_coding_agent_harness.Persistence.LeaseModels.{
  LeaseStatus-discrete, LeasePurpose, LeaseStatus, LeaseError, ExecutionLease, AuditEvent, Database,
  Query, Statement, Result,
}
use ai_coding_agent_harness.Persistence.Lease.{
  lease_is_valid, is_open, has_id, from_row, one_row, open_lease, row_checks, insert_lease,
  rewrite_row, update_lease, add_audit, new_lease, moved_to, progressed, row_is, owned_row_is,
  committed, audited,
}

-- The updates of the table: which row, and what becomes of it.
pub data Update : Type 0 where
  beat : String → String → ℕ → TaskState → ℕ → Update
  expire : String → ℕ → Update
  give_up : String → String → ℕ → Update
  hand_over : String → ℕ → Update

abbrev pub row_of : Update → ExecutionLease → Bool
row_of (beat owner lease_id revision phase now) =
    owned_row_is owner LeaseStatus.active lease_id revision
row_of (expire lease_id revision) = row_is LeaseStatus.active lease_id revision
row_of (give_up owner lease_id revision) = owned_row_is owner LeaseStatus.active lease_id revision
row_of (hand_over lease_id revision) = row_is LeaseStatus.recovery_pending lease_id revision

abbrev pub change_of : Update → ExecutionLease → ExecutionLease
change_of (beat owner lease_id revision phase now) = progressed phase now
change_of (expire lease_id revision) = moved_to LeaseStatus.recovery_pending
change_of (give_up owner lease_id revision) = moved_to LeaseStatus.released
change_of (hand_over lease_id revision) = moved_to LeaseStatus.released

abbrev pub rewritten : Update → List ExecutionLease → List ExecutionLease
rewritten u rows = map (rewrite_row (row_of u) (change_of u)) rows

-- A new active lease, with an identity that no row has, while no row is open.
pub record Inserts (rows : List ExecutionLease) (l : ExecutionLease) (after : List ExecutionLease)
    : Type 0 where
  pub inserted : after ≡ l ∷ rows
  pub valid : lease_is_valid l ≡ true
  pub fresh : any (has_id l.lease_id) rows ≡ false
  pub is_new : l.status ≡ LeaseStatus.active
  pub slot_free : any is_open rows ≡ false

-- The update of the row of the open lease.
pub record Updates (u : Update) (db : Database) (l : ExecutionLease) (after : List ExecutionLease)
    : Type 0 where
  pub current : ExecutionLease
  pub is_current : open_lease db ≡ Query.read (some current)
  pub found : row_of u current ≡ true
  pub returned : l ≡ change_of u current
  pub updated : after ≡ rewritten u db.leases
  pub checked : all row_checks (rewritten u db.leases) ≡ true

pub insert_changes :
    (db d : Database) (l : ExecutionLease)
    → insert_lease db l ≡ Statement.changed d
    → (d.leases ≡ l ∷ db.leases)
      × (any (has_id l.lease_id) db.leases ≡ false)
      × (row_checks l ≡ true)
      × ((is_open l && any is_open db.leases) ≡ false)
unfolding insert_lease
insert_changes db d l same = ground arith

pub update_changes :
    (u : Update) (e : LeaseError) (db d : Database)
    → update_lease db (row_of u) (change_of u) e ≡ Statement.changed d
    → (d.leases ≡ rewritten u db.leases) × (all row_checks (rewritten u db.leases) ≡ true)
unfolding update_lease
update_changes u e db d same = ground arith

pub audit_changes :
    (event : AuditEvent) (e : LeaseError) (db d : Database)
    → add_audit db event e ≡ Statement.changed d
    → d.leases ≡ db.leases
unfolding add_audit
audit_changes event e db d same = ground arith

pub committed_done :
    (given l : ExecutionLease) (s : Statement) (d : Database)
    → committed given s ≡ Result.done l d
    → (l ≡ given) × (s ≡ Statement.changed d)
unfolding committed
committed_done given l (Statement.changed db) d same = (ground arith, ground arith)
committed_done given l (Statement.refused e) d same = absurd (ground arith)

pub audited_done :
    (given l : ExecutionLease) (event : AuditEvent) (e : LeaseError) (s : Statement) (d : Database)
    → audited given event e s ≡ Result.done l d
    → (l ≡ given) × ((db : Database) × (s ≡ Statement.changed db) × (d.leases ≡ db.leases))
unfolding audited
audited_done given l event e (Statement.refused r) d same = absurd (ground arith)
audited_done given l event e (Statement.changed db) d same =
    let (returned, wrote) = committed_done given l (add_audit db event e) d same in
    (returned, (db, refl, audit_changes event e db d wrote))

-- What a call that succeeds is, on the rows.
pub data Step (db : Database) (l : ExecutionLease) (after : List ExecutionLease) : Type 0 where
  inserts : Inserts db.leases l after → Step db l after
  updates : (u : Update) → Updates u db l after → Step db l after
  replaces :
      (lease_id : String) (revision : ℕ) (old : ExecutionLease) (between : List ExecutionLease)
      → Updates (hand_over lease_id revision) db old between
      → Inserts between l after
      → Step db l after

-- The test of a query of one row.
pub one_row-none : (rows : List ExecutionLease) → one_row rows ≡ Query.read none → rows ≡ []
unfolding one_row from_row
one_row-none [] same = refl
one_row-none (l ∷ []) same = absurd (ground arith)
one_row-none (l ∷ m ∷ more) same = absurd (ground arith)

pub select_none : (rows : List ExecutionLease) → select is_open rows ≡ [] → any is_open rows ≡ false
unfolding select
select_none [] same = refl
select_none (l ∷ rows) same = elim (Bool-cases (is_open l)) [
  | inl here ↦ absurd (ground arith)
  | inr there ↦ let rest = select_none rows (ground arith) in ground arith
]

pub slot_is_free : (db : Database) → open_lease db ≡ Query.read none → any is_open db.leases ≡ false
unfolding open_lease
slot_is_free db same = select_none db.leases (one_row-none (select is_open db.leases) same)

pub new_lease_valid :
    (lease_id task_id run_id owner : String) (purpose : LeasePurpose) (phase : TaskState) (now : ℕ)
    → is_text lease_id ≡ true
    → is_text task_id ≡ true
    → is_text run_id ≡ true
    → is_text owner ≡ true
    → lease_is_valid (new_lease lease_id task_id run_id owner purpose phase now) ≡ true
unfolding lease_is_valid new_lease
new_lease_valid lease_id task_id run_id owner purpose phase now a b c d = ground arith

pub is_open_new :
    (lease_id task_id run_id owner : String) (purpose : LeasePurpose) (phase : TaskState) (now : ℕ)
    → is_open (new_lease lease_id task_id run_id owner purpose phase now) ≡ true
unfolding is_open new_lease LeaseStatus-discrete
is_open_new lease_id task_id run_id owner purpose phase now = refl

pub new_lease_active :
    (lease_id task_id run_id owner : String) (purpose : LeasePurpose) (phase : TaskState) (now : ℕ)
    → (new_lease lease_id task_id run_id owner purpose phase now).status ≡ LeaseStatus.active
unfolding new_lease
new_lease_active lease_id task_id run_id owner purpose phase now = refl

-- The parts of an insertion.
pub insertion :
    (db d : Database) (lease_id task_id run_id owner : String) (purpose : LeasePurpose)
    → (phase : TaskState) (now : ℕ) → is_text lease_id ≡ true
    → is_text task_id ≡ true
    → is_text run_id ≡ true
    → is_text owner ≡ true
    → insert_lease db (new_lease lease_id task_id run_id owner purpose phase now)
      ≡ Statement.changed d
    → Inserts db.leases (new_lease lease_id task_id run_id owner purpose phase now) d.leases
insertion db d lease_id task_id run_id owner purpose phase now a b c e wrote =
    let l = new_lease lease_id task_id run_id owner purpose phase now in
    let (rows, fresh, checks, free) = insert_changes db d l wrote in
    let opens = is_open_new lease_id task_id run_id owner purpose phase now in
    record {
      inserted = rows;
      valid = new_lease_valid lease_id task_id run_id owner purpose phase now a b c e;
      fresh = fresh;
      is_new = new_lease_active lease_id task_id run_id owner purpose phase now;
      slot_free = ground arith;
    }

-- The parts of an update, with and without a record in the audit.
module _ (u : Update) (db d : Database) (current l : ExecutionLease) (e : LeaseError)
    (opens : open_lease db ≡ Query.read (some current)) (found : row_of u current ≡ true) where
  pub updating :
      (db' : Database)
      → l ≡ change_of u current
      → update_lease db (row_of u) (change_of u) e ≡ Statement.changed db'
      → Updates u db l db'.leases
  updating db' returned wrote =
      let (rows, checks) = update_changes u e db db' wrote in
      record {
        current = current;
        is_current = opens;
        found = found;
        returned = returned;
        updated = rows;
        checked = checks;
      }

  pub plain_update :
      committed (change_of u current) (update_lease db (row_of u) (change_of u) e) ≡ Result.done l d
      → Updates u db l d.leases
  plain_update same =
      let (returned, wrote) =
        committed_done (change_of u current) l (update_lease db (row_of u) (change_of u) e) d
          same in
      updating d returned wrote

  pub audited_update :
      (event : AuditEvent) (on_key : LeaseError)
      → audited (change_of u current) event on_key (update_lease db (row_of u) (change_of u) e)
        ≡ Result.done l d
      → Updates u db l d.leases
  audited_update event on_key same =
      let (returned, (db', wrote, kept)) =
        audited_done (change_of u current) l event on_key
          (update_lease db (row_of u) (change_of u) e) d same in
      rw kept (updating db' returned wrote)
