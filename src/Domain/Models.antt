-- ===== src/Domain/Models.antt =====
-- The records of src/coding_harness/domain/models.py.
use ai_coding_agent_harness.Base.{String, Bool, Option}
use ai_coding_agent_harness.Base.Int.{ℤ}
use ai_coding_agent_harness.Domain.Enums.{
  TaskState, TransitionTrigger, TransitionReason, BlockedReason, UnrecoverableFailureReason,
  IdempotencyStatus,
}

pub record PlanVersion : Type 0 where
  pub identity : String
  pub task_id : String
  pub sequence : ℤ
  pub content_digest : String
  pub display_text : String

pub record ContractVersion : Type 0 where
  pub identity : String
  pub task_id : String
  pub sequence : ℤ
  pub content_digest : String
  pub display_text : String

pub record IdempotencyRequest : Type 0 where
  pub key : String
  pub request_digest : String

pub record TransitionPreconditions : Type 0 where
  pub frozen_checks_passed : Bool
  pub clarification_persisted : Bool
  pub provider_unlocked : Bool
  pub changeset_ready : Bool
  pub acceptance_ready : Bool
  pub apply_confirmation_valid : Bool
  pub writeback_verified : Bool
  pub rollback_verified : Bool
  pub recovery_evidence_valid : Bool
  pub safe_cleanup_completed : Bool
  pub active_execution_confirmed : Bool

pub record IdempotencyRecord : Type 0 where
  pub key : String
  pub request_digest : String
  pub source : TaskState
  pub target : TaskState
  pub trigger : TransitionTrigger
  pub permitted : Bool
  pub reason : TransitionReason

-- The `None` defaults are `none`.
pub record TransitionCommand : Type 0 where
  pub current_state : TaskState
  pub expected_state : TaskState
  pub trigger : TransitionTrigger
  pub idempotency : IdempotencyRequest
  pub preconditions : TransitionPreconditions
  pub uncertain_file_effect : Bool
  pub current_plan_version : Option PlanVersion
  pub expected_plan_identity : Option String
  pub current_contract_version : Option ContractVersion
  pub expected_contract_identity : Option String
  pub prior_idempotency : Option IdempotencyRecord
  pub blocked_reason : Option BlockedReason
  pub failure_reason : Option UnrecoverableFailureReason

pub record TransitionAudit : Type 0 where
  pub source : TaskState
  pub target : TaskState
  pub trigger : TransitionTrigger
  pub permitted : Bool
  pub reason : TransitionReason

pub record TransitionResult : Type 0 where
  pub source : TaskState
  pub target : TaskState
  pub permitted : Bool
  pub should_apply : Bool
  pub changed : Bool
  pub reason : TransitionReason
  pub audit : TransitionAudit
  pub lease_acquisition_required : Bool
  pub agent_loop_resume_permitted : Bool
  pub idempotency_status : IdempotencyStatus
  pub idempotency_record : Option IdempotencyRecord
