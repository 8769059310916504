-- ===== src/Domain/Enums.antt =====
-- The closed vocabularies of src/coding_harness/domain/enums.py.
use ai_coding_agent_harness.Base.{Bool, true, false, Comparable, comparable_by}

pub data TaskState : Type 0 where
  draft investigating awaiting_clarification awaiting_plan_approval ready_to_execute : TaskState
  executing awaiting_action_approval awaiting_budget_approval verifying : TaskState
  awaiting_user_confirmation ready_to_apply applying rolling_back recovery_required : TaskState
  awaiting_provider_unlock blocked failed cancelled not_applied completed : TaskState

unfoldable pub TaskState-discrete : Discrete TaskState
TaskState-discrete = hlevel

instance abbrev pub task_state_eq : Comparable TaskState
task_state_eq = comparable_by TaskState-discrete

-- `state in TERMINAL_STATES`
abbrev pub terminal_states : TaskState → Bool
terminal_states completed = true
terminal_states not_applied = true
terminal_states failed = true
terminal_states cancelled = true
terminal_states _ = false

pub data TransitionTrigger : Type 0 where
  submit_task request_clarification persist_plan submit_clarification : TransitionTrigger
  continue_investigation approve_plan reject_plan continue_execution : TransitionTrigger
  provider_locked request_action_approval approve_action reject_action : TransitionTrigger
  request_budget_reapproval approve_budget reject_budget revise_plan : TransitionTrigger
  start_verification request_user_confirmation verification_passed : TransitionTrigger
  verification_feedback confirm_user_acceptance reject_user_acceptance : TransitionTrigger
  confirm_apply reject_apply apply_succeeded apply_failed rollback_succeeded : TransitionTrigger
  rollback_recovery_required request_recovery continue_provider_unlock : TransitionTrigger
  continue_blocked_execution submit_blocked_clarification : TransitionTrigger
  continue_apply_conflict cancel_task enter_blocked fail_unrecoverably : TransitionTrigger

unfoldable pub TransitionTrigger-discrete : Discrete TransitionTrigger
TransitionTrigger-discrete = hlevel

instance abbrev pub transition_trigger_eq : Comparable TransitionTrigger
transition_trigger_eq = comparable_by TransitionTrigger-discrete

pub data TransitionReason : Type 0 where
  permitted illegal_transition terminal_state expected_state_conflict : TransitionReason
  expected_version_conflict idempotency_conflict precondition_failed : TransitionReason
  invalid_reason uncertain_effect_recovery recovery_already_required : TransitionReason

pub data BlockedReason : Type 0 where
  missing_dependency unsupported_capability docker_unavailable : BlockedReason
  provider_unavailable context_export_denied apply_conflict policy_error : BlockedReason
  provider_configuration_error persistence_failed budget_extension_rejected : BlockedReason
  user_acceptance_rejected : BlockedReason

pub data UnrecoverableFailureReason : Type 0 where
  invalid_action hard_limit_reached provider_response_invalid : UnrecoverableFailureReason
  output_limit create_failed start_failed resource_limit : UnrecoverableFailureReason

pub data IdempotencyStatus : Type 0 where
  new replayed conflict : IdempotencyStatus
