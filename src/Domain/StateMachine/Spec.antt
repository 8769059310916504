-- ===== src/Domain/StateMachine/Spec.antt =====
-- What `StateMachine.transition` promises, stated without its order of checks: when a request is
-- new and current, and in which ways a request may move its task.
use ai_coding_agent_harness.Base.{String, ◌≡◌, ◌≢◌, true, false, Option, none, some, All}
use ai_coding_agent_harness.Domain.Enums.{
  TaskState, TransitionTrigger, BlockedReason, UnrecoverableFailureReason, terminal_states,
}
use ai_coding_agent_harness.Domain.Models.{
  PlanVersion, ContractVersion, IdempotencyRecord, TransitionCommand,
}
use ai_coding_agent_harness.Domain.Transitions.{
  transitions, blocked_reason_sources, failure_reason_sources, required_preconditions,
}

-- The key of the request is not the key of the recorded one.
abbrev pub IsUnseen : Option IdempotencyRecord → String → Type 0
IsUnseen none key = Unit
IsUnseen (some prior) key = prior.key ≢ key

-- An expected plan, where one is named, is the current one.
abbrev pub PlanIsCurrent : Option String → Option PlanVersion → Type 0
PlanIsCurrent none plan = Unit
PlanIsCurrent (some expected) none = ⊥
PlanIsCurrent (some expected) (some plan) = plan.identity ≡ expected

abbrev pub ContractIsCurrent : Option String → Option ContractVersion → Type 0
ContractIsCurrent none contract = Unit
ContractIsCurrent (some expected) none = ⊥
ContractIsCurrent (some expected) (some contract) = contract.identity ≡ expected

pub record IsCurrent (c : TransitionCommand) : Type 0 where
  pub unseen : IsUnseen c.prior_idempotency c.idempotency.key
  pub state : c.expected_state ≡ c.current_state
  pub plan : PlanIsCurrent c.expected_plan_identity c.current_plan_version
  pub contract : ContractIsCurrent c.expected_contract_identity c.current_contract_version
  pub live : terminal_states c.current_state ≡ false

-- A trigger that the table serves.
pub record IsOrdinary (t : TransitionTrigger) : Type 0 where
  pub not_cancel : t ≢ TransitionTrigger.cancel_task
  pub not_block : t ≢ TransitionTrigger.enter_blocked
  pub not_fail : t ≢ TransitionTrigger.fail_unrecoverably

pub data Moves (c : TransitionCommand) (target : TaskState) : Type 0 where
  -- An uncertain effect on the files leads to recovery, whatever was asked for.
  uncertain :
      c.uncertain_file_effect ≡ true
      → c.current_state ≢ TaskState.recovery_required
      → target ≡ TaskState.recovery_required
      → Moves c target
  cancelled :
      c.uncertain_file_effect ≡ false
      → c.trigger ≡ TransitionTrigger.cancel_task
      → c.current_state ≢ TaskState.recovery_required
      → c.preconditions.safe_cleanup_completed ≡ true
      → target ≡ TaskState.cancelled
      → Moves c target
  blocked :
      c.uncertain_file_effect ≡ false
      → c.trigger ≡ TransitionTrigger.enter_blocked
      → (reason : BlockedReason) → c.blocked_reason ≡ some reason
      → blocked_reason_sources reason c.current_state ≡ true
      → c.preconditions.active_execution_confirmed ≡ true
      → c.preconditions.safe_cleanup_completed ≡ true
      → target ≡ TaskState.blocked
      → Moves c target
  failed :
      c.uncertain_file_effect ≡ false
      → c.trigger ≡ TransitionTrigger.fail_unrecoverably
      → (reason : UnrecoverableFailureReason) → c.failure_reason ≡ some reason
      → failure_reason_sources reason c.current_state ≡ true
      → c.preconditions.active_execution_confirmed ≡ true
      → c.preconditions.safe_cleanup_completed ≡ true
      → target ≡ TaskState.failed
      → Moves c target
  by_table :
      c.uncertain_file_effect ≡ false
      → IsOrdinary c.trigger
      → transitions c.current_state c.trigger ≡ some target
      → All (λ b. b ≡ true) (required_preconditions c.trigger c.preconditions)
      → Moves c target
