-- ===== src/Persistence/Lease/Examples.antt =====
-- A lease that expires and is taken over by a recovery.
use ai_coding_agent_harness.Base.{◌≡◌, refl, true, some, [], ◌∷◌, find_first, select}
use ai_coding_agent_harness.Domain.Enums.{TaskState}
use ai_coding_agent_harness.Domain.Text.{is_text, has_nul}
use ai_coding_agent_harness.Domain.AcceptanceModels.{are_unique}
use ai_coding_agent_harness.Persistence.LeaseModels.{
  LeasePurpose, LeaseStatus, LeaseError, LeasePurpose-discrete, LeaseStatus-discrete,
  ReleaseEvidence, permits_release, ExecutionLease, Database, Query, Result,
}
use ai_coding_agent_harness.Persistence.Lease.{
  lease_is_valid, is_open, from_row, one_row, open_lease, inspect, row_checks, fits, insert_lease,
  update_lease, add_audit, new_lease, moved_to, progressed, row_is, owned_row_is, is_held,
  committed, audited, acquire, heartbeat, is_recent, mark_expired, release, may_take_over,
  taken_over, acquire_recovery, Call, answer, database_after, run_calls,
}
use ai_coding_agent_harness.Persistence.Lease.Exclusive.{rows_are_valid, run_calls-valid}
use ai_coding_agent_harness.Persistence.Lease.Readback.{inspect-answer}
use ai_coding_agent_harness.Persistence.Lease.Lost.{is_raised, lost_lease_raises}

program : Unit {0}
unfolding is_text has_nul are_unique LeasePurpose-discrete LeaseStatus-discrete permits_release
    lease_is_valid is_open from_row one_row open_lease inspect row_checks fits insert_lease
    update_lease add_audit new_lease moved_to progressed row_is owned_row_is is_held committed
    audited acquire heartbeat is_recent mark_expired release may_take_over taken_over
    acquire_recovery answer database_after run_calls rows_are_valid is_raised find_first select
program = tt

abbrev empty : Database
empty = record { tasks = "task-1" ∷ []; leases = []; audit_events = [] }

abbrev take : Call
take =
    Call.call_acquire "lease-1" "task-1" "run-1" "alice" LeasePurpose.execution TaskState.executing
      10

abbrev recover : Call
recover = Call.call_acquire_recovery "lease-2" "task-1" "run-1" "bob" TaskState.executing 2 50

abbrev taken : Database
taken = run_calls 30 empty (take ∷ [])

abbrev expired : Database
expired = run_calls 30 empty (take ∷ Call.call_mark_expired 41 ∷ [])

abbrev lost_lease : ExecutionLease
lost_lease = record {
  lease_id = "lease-1";
  task_id = "task-1";
  run_id = "run-1";
  owner_identity = "alice";
  purpose = LeasePurpose.execution;
  acquired_at = 10;
  last_progress_at = 10;
  phase = TaskState.executing;
  status = LeaseStatus.recovery_pending;
  revision = 2;
}

-- At the timeout the lease is still held.
not_expired : answer 30 taken (Call.call_mark_expired 40) ≡ Result.raised LeaseError.lease_conflict
unfolding program
not_expired = refl

expires : answer 30 taken (Call.call_mark_expired 41) ≡ Result.done lost_lease expired
unfolding program
expires = refl

run_calls-valid_example :
    rows_are_valid (run_calls 30 empty (take ∷ Call.call_mark_expired 41 ∷ recover ∷ [])).leases
    ≡ true
unfolding program
run_calls-valid_example =
    run_calls-valid 30 empty (take ∷ Call.call_mark_expired 41 ∷ recover ∷ []) refl

inspect-answer_example : inspect expired "lease-1" ≡ Query.read (some lost_lease)
unfolding program
inspect-answer_example =
    inspect-answer 30 taken expired (Call.call_mark_expired 41) lost_lease refl expires

abbrev all_done : ReleaseEvidence
all_done = record {
  container_terminal = true;
  file_effects_terminal = true;
  cleanup_verified = true;
}

lost_lease_raises_example :
    (is_raised
        (heartbeat (run_calls 30 expired (recover ∷ [])) "lease-1" "alice" 2 TaskState.executing 60)
      ≡ true)
    × (is_raised (release (run_calls 30 expired (recover ∷ [])) "lease-1" "alice" 2 all_done 60)
        ≡ true)
unfolding program
lost_lease_raises_example =
    lost_lease_raises 30 taken expired (Call.call_mark_expired 41) lost_lease refl expires refl
      (recover ∷ []) "alice" 2 TaskState.executing all_done 60
