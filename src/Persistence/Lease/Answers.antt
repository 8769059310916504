-- ===== src/Persistence/Lease/Answers.antt =====
-- Which step of the rows each operation is.
use ai_coding_agent_harness.Base.{
  same_iff, ◌⊎◌, ℕ, String, none, some, ◌≡◌, refl, arith, inl, inr, nat_comparable, text_comparable,
}
use ai_coding_agent_harness.Domain.Enums.{TaskState}
use ai_coding_agent_harness.Persistence.LeaseModels.{
  LeasePurpose, LeaseError, ReleaseEvidence, ExecutionLease, Database, Query, Statement, Result,
}
use ai_coding_agent_harness.Persistence.Lease.{
  may_take_over, Call, acquire_recovery, taken_over, answer, open_lease, insert_lease, update_lease,
  new_lease, row_is, owned_row_is, is_held, committed, acquire, heartbeat, mark_expired, release,
}
use ai_coding_agent_harness.Persistence.Lease.Steps.{
  row_of, change_of, committed_done, audited_done, Step, insertion, updating, plain_update,
  audited_update, beat, expire, give_up, hand_over,
}

acquire_done :
    (db d : Database) (l : ExecutionLease) (lease_id task_id run_id owner : String)
    (purpose : LeasePurpose)
    → (phase : TaskState) (now : ℕ)
    → acquire db lease_id task_id run_id owner purpose phase now ≡ Result.done l d
    → Step db l d.leases
unfolding acquire
acquire_done db d l lease_id task_id run_id owner purpose phase now same =
    let given = new_lease lease_id task_id run_id owner purpose phase now in
    let wrote : committed given (insert_lease db given) ≡ Result.done l d = ground arith in
    let (returned, changes) = committed_done given l (insert_lease db given) d wrote in
    Step.inserts (
      rw returned (
        insertion db d lease_id task_id run_id owner purpose phase now (ground arith) (ground arith)
          (ground arith) (ground arith) changes))

pub Query-cases :
    (q : Query)
    → (((e : LeaseError) × (q ≡ Query.unreadable e)) ⊎ (q ≡ Query.read none))
      ⊎ ((l : ExecutionLease) × (q ≡ Query.read (some l)))
Query-cases (Query.unreadable e) = inl (inl (e, refl))
Query-cases (Query.read none) = inl (inr refl)
Query-cases (Query.read (some l)) = inr (l, refl)

heartbeat_done :
    (db d : Database) (l : ExecutionLease) (lease_id owner : String) (revision : ℕ)
    → (phase : TaskState) (now : ℕ)
    → heartbeat db lease_id owner revision phase now ≡ Result.done l d
    → Step db l d.leases
unfolding heartbeat is_held owned_row_is row_is
heartbeat_done db d l lease_id owner revision phase now same = elim (Query-cases (open_lease db)) [
  | inl (inl (e, bad)) ↦ absurd (ground arith)
  | inl (inr none_open) ↦ absurd (ground arith)
  | inr (current, opens) ↦
      let u = beat owner lease_id revision phase now in
      Step.updates u (
        plain_update u db d current l LeaseError.lease_persistence_error opens (ground arith)
          (ground arith))
]

mark_expired_done :
    (timeout : ℕ) (db d : Database) (l : ExecutionLease) (now : ℕ)
    → mark_expired timeout db now ≡ Result.done l d
    → Step db l d.leases
unfolding mark_expired row_is
mark_expired_done timeout db d l now same = elim (Query-cases (open_lease db)) [
  | inl (inl (e, bad)) ↦ absurd (ground arith)
  | inl (inr none_open) ↦ absurd (ground arith)
  | inr (current, opens) ↦
      let u = expire current.lease_id current.revision in
      let itself = (same_iff current.revision current.revision).1 refl in
      let named = (same_iff current.lease_id current.lease_id).1 refl in
      Step.updates u (
        audited_update u db d current l LeaseError.lease_persistence_error opens (ground arith)
          (record {
            task_id = current.task_id;
            event_kind = "EXECUTION_LEASE_STALE";
            subject_identity = current.lease_id;
            occurred_at = now;
          })
          LeaseError.lease_persistence_error (ground arith))
]

release_done :
    (db d : Database) (l : ExecutionLease) (lease_id owner : String) (revision : ℕ)
    → (evidence : ReleaseEvidence) (now : ℕ)
    → release db lease_id owner revision evidence now ≡ Result.done l d
    → Step db l d.leases
unfolding release is_held owned_row_is row_is
release_done db d l lease_id owner revision evidence now same = elim (Query-cases (open_lease db)) [
  | inl (inl (e, bad)) ↦ absurd (ground arith)
  | inl (inr none_open) ↦ absurd (ground arith)
  | inr (current, opens) ↦
      let u = give_up owner lease_id revision in
      Step.updates u (
        audited_update u db d current l LeaseError.lease_persistence_error opens (ground arith)
          (record {
            task_id = current.task_id;
            event_kind = "EXECUTION_LEASE_RELEASED";
            subject_identity = current.lease_id;
            occurred_at = now;
          })
          LeaseError.lease_persistence_error (ground arith))
]

-- An insertion that comes after an update.
taken_over_done :
    (given l : ExecutionLease) (now : ℕ) (s : Statement) (d : Database)
    → taken_over given now s ≡ Result.done l d
    → (l ≡ given)
      × ((first second : Database) × (s ≡ Statement.changed first)
          × (insert_lease first given ≡ Statement.changed second)
          × (d.leases ≡ second.leases))
unfolding taken_over
taken_over_done given l now (Statement.refused e) d same = absurd (ground arith)
taken_over_done given l now (Statement.changed db) d same =
    let (returned, (db', wrote, kept)) =
      audited_done given l
        (record {
          task_id = given.task_id;
          event_kind = "EXECUTION_LEASE_RECOVERY_ACQUIRED";
          subject_identity = given.lease_id;
          occurred_at = now;
        })
        LeaseError.lease_conflict (insert_lease db given) d same in
    (returned, (db, db', refl, wrote, kept))

acquire_recovery_done :
    (db d : Database) (l : ExecutionLease) (lease_id task_id run_id owner : String)
    → (phase : TaskState) (revision now : ℕ)
    → acquire_recovery db lease_id task_id run_id owner phase revision now ≡ Result.done l d
    → Step db l d.leases
unfolding acquire_recovery may_take_over row_is
acquire_recovery_done db d l lease_id task_id run_id owner phase revision now same =
    elim (Query-cases (open_lease db)) [
      | inl (inl (e, bad)) ↦ absurd (ground arith)
      | inl (inr none_open) ↦ absurd (ground arith)
      | inr (pending, opens) ↦
          let given = new_lease lease_id task_id run_id owner LeasePurpose.recovery phase now in
          let u = hand_over pending.lease_id revision in
          let named = (same_iff pending.lease_id pending.lease_id).1 refl in
          let (returned, (first, second, changes, wrote, kept)) =
            taken_over_done given l now
              (update_lease db (row_of u) (change_of u) LeaseError.lease_conflict) d
              (ground arith) in
          Step.replaces pending.lease_id revision (change_of u pending) first.leases
            (updating u db d pending (change_of u pending) LeaseError.lease_conflict opens
              (ground arith) first refl changes)
            (rw (returned, kept)
              (insertion first second lease_id task_id run_id owner LeasePurpose.recovery phase now
                (ground arith) (ground arith) (ground arith) (ground arith) wrote))
    ]

pub answer-Step :
    (timeout : ℕ) (db d : Database) (c : Call) (l : ExecutionLease)
    → answer timeout db c ≡ Result.done l d
    → Step db l d.leases
unfolding answer
answer-Step timeout db d (Call.call_acquire lease_id task_id run_id owner purpose phase now) l
      same =
    acquire_done db d l lease_id task_id run_id owner purpose phase now same
answer-Step timeout db d (Call.call_heartbeat lease_id owner revision phase now) l same =
    heartbeat_done db d l lease_id owner revision phase now same
answer-Step timeout db d (Call.call_mark_expired now) l same =
    mark_expired_done timeout db d l now same
answer-Step timeout db d (Call.call_release lease_id owner revision evidence now) l same =
    release_done db d l lease_id owner revision evidence now same
answer-Step timeout db d
      (Call.call_acquire_recovery lease_id task_id run_id owner phase revision now) l same =
    acquire_recovery_done db d l lease_id task_id run_id owner phase revision now same
