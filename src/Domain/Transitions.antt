-- ===== src/Domain/Transitions.antt =====
-- The tables of src/coding_harness/domain/state_machine.py, each as a function of its key: a
-- Boolean for membership in a set, `none` for a missing key.
use ai_coding_agent_harness.Base.{
  Bool, true, false, not, Option, none, some, List, [], ◌∷◌, text_comparable,
}
use ai_coding_agent_harness.Domain.Enums.{
  TaskState, draft, investigating, awaiting_clarification, awaiting_plan_approval, ready_to_execute,
  executing, awaiting_action_approval, awaiting_budget_approval, verifying,
  awaiting_user_confirmation, ready_to_apply, applying, rolling_back, recovery_required,
  awaiting_provider_unlock, blocked, failed, cancelled, not_applied, completed, task_state_eq,
  terminal_states, TransitionTrigger, submit_task, request_clarification, persist_plan,
  submit_clarification, continue_investigation, approve_plan, reject_plan, continue_execution,
  provider_locked, request_action_approval, approve_action, reject_action,
  request_budget_reapproval, approve_budget, reject_budget, revise_plan, start_verification,
  request_user_confirmation, verification_passed, verification_feedback, confirm_user_acceptance,
  reject_user_acceptance, confirm_apply, reject_apply, apply_succeeded, apply_failed,
  rollback_succeeded, rollback_recovery_required, request_recovery, continue_provider_unlock,
  continue_blocked_execution, submit_blocked_clarification, continue_apply_conflict, BlockedReason,
  UnrecoverableFailureReason,
}
use ai_coding_agent_harness.Domain.Models.{TransitionPreconditions}

-- `_TRANSITIONS`
unfoldable pub transitions : TaskState → TransitionTrigger → Option TaskState
transitions draft submit_task = some investigating
transitions investigating request_clarification = some awaiting_clarification
transitions investigating persist_plan = some awaiting_plan_approval
transitions awaiting_clarification submit_clarification = some investigating
transitions investigating continue_investigation = some investigating
transitions awaiting_plan_approval approve_plan = some ready_to_execute
transitions awaiting_plan_approval reject_plan = some cancelled
transitions ready_to_execute continue_execution = some executing
transitions ready_to_execute provider_locked = some awaiting_provider_unlock
transitions executing request_action_approval = some awaiting_action_approval
transitions awaiting_action_approval approve_action = some ready_to_execute
transitions awaiting_action_approval reject_action = some ready_to_execute
transitions executing request_budget_reapproval = some awaiting_budget_approval
transitions verifying request_budget_reapproval = some awaiting_budget_approval
transitions awaiting_budget_approval approve_budget = some ready_to_execute
transitions awaiting_budget_approval reject_budget = some blocked
transitions executing revise_plan = some awaiting_plan_approval
transitions executing start_verification = some verifying
transitions verifying request_user_confirmation = some awaiting_user_confirmation
transitions verifying verification_passed = some ready_to_apply
transitions verifying verification_feedback = some executing
transitions awaiting_user_confirmation confirm_user_acceptance = some ready_to_apply
transitions awaiting_user_confirmation reject_user_acceptance = some blocked
transitions ready_to_apply confirm_apply = some applying
transitions ready_to_apply reject_apply = some not_applied
transitions applying apply_succeeded = some completed
transitions applying apply_failed = some rolling_back
transitions rolling_back rollback_succeeded = some failed
transitions rolling_back rollback_recovery_required = some recovery_required
transitions recovery_required request_recovery = some rolling_back
transitions awaiting_provider_unlock continue_provider_unlock = some executing
transitions blocked continue_blocked_execution = some executing
transitions blocked submit_blocked_clarification = some investigating
transitions blocked continue_apply_conflict = some investigating
transitions _ _ = none

-- `_ACTIVE_STATES`
abbrev pub active_states : TaskState → Bool
active_states investigating = true
active_states executing = true
active_states verifying = true
active_states applying = true
active_states rolling_back = true
active_states _ = false

-- `_CANCELLABLE_STATES`: every state, less the terminal ones, less `RECOVERY_REQUIRED`.
abbrev pub cancellable_states : TaskState → Bool
cancellable_states recovery_required = false
cancellable_states s = not (terminal_states s)

abbrev pub investigating_or_executing : TaskState → Bool
investigating_or_executing investigating = true
investigating_or_executing executing = true
investigating_or_executing _ = false

abbrev pub executing_or_verifying : TaskState → Bool
executing_or_verifying executing = true
executing_or_verifying verifying = true
executing_or_verifying _ = false

abbrev pub working : TaskState → Bool
working investigating = true
working executing = true
working verifying = true
working _ = false

abbrev pub only_applying : TaskState → Bool
only_applying applying = true
only_applying _ = false

-- `state in _BLOCKED_REASON_SOURCES[reason]`
unfoldable pub blocked_reason_sources : BlockedReason → TaskState → Bool
blocked_reason_sources BlockedReason.missing_dependency s = working s
blocked_reason_sources BlockedReason.unsupported_capability s = investigating_or_executing s
blocked_reason_sources BlockedReason.docker_unavailable s = working s
blocked_reason_sources BlockedReason.provider_unavailable s = investigating_or_executing s
blocked_reason_sources BlockedReason.context_export_denied s = investigating_or_executing s
blocked_reason_sources BlockedReason.apply_conflict s = only_applying s
blocked_reason_sources BlockedReason.policy_error s = investigating_or_executing s
blocked_reason_sources BlockedReason.provider_configuration_error s = investigating_or_executing s
blocked_reason_sources BlockedReason.persistence_failed s = active_states s
blocked_reason_sources BlockedReason.budget_extension_rejected s = false
blocked_reason_sources BlockedReason.user_acceptance_rejected s = false

-- `state in _FAILURE_REASON_SOURCES[reason]`
unfoldable pub failure_reason_sources : UnrecoverableFailureReason → TaskState → Bool
failure_reason_sources UnrecoverableFailureReason.invalid_action s = investigating_or_executing s
failure_reason_sources UnrecoverableFailureReason.hard_limit_reached s = working s
failure_reason_sources UnrecoverableFailureReason.provider_response_invalid s =
    investigating_or_executing s
failure_reason_sources UnrecoverableFailureReason.output_limit s = executing_or_verifying s
failure_reason_sources UnrecoverableFailureReason.create_failed s = executing_or_verifying s
failure_reason_sources UnrecoverableFailureReason.start_failed s = executing_or_verifying s
failure_reason_sources UnrecoverableFailureReason.resource_limit s = executing_or_verifying s

-- `trigger in _LEASE_ACQUISITION_TRIGGERS`
unfoldable pub lease_acquisition_triggers : TransitionTrigger → Bool
lease_acquisition_triggers submit_task = true
lease_acquisition_triggers continue_investigation = true
lease_acquisition_triggers continue_execution = true
lease_acquisition_triggers confirm_apply = true
lease_acquisition_triggers request_recovery = true
lease_acquisition_triggers continue_provider_unlock = true
lease_acquisition_triggers continue_blocked_execution = true
lease_acquisition_triggers continue_apply_conflict = true
lease_acquisition_triggers _ = false

-- `trigger in _AGENT_LOOP_TRIGGERS`
unfoldable pub agent_loop_triggers : TransitionTrigger → Bool
agent_loop_triggers submit_task = true
agent_loop_triggers continue_investigation = true
agent_loop_triggers continue_execution = true
agent_loop_triggers continue_provider_unlock = true
agent_loop_triggers continue_blocked_execution = true
agent_loop_triggers continue_apply_conflict = true
agent_loop_triggers _ = false

-- `_REQUIRED_PRECONDITIONS.get(trigger, ())`, each name as the field that `getattr` reads.
unfoldable pub required_preconditions : TransitionTrigger → TransitionPreconditions → List Bool
required_preconditions submit_clarification p = p.clarification_persisted ∷ []
required_preconditions continue_investigation p =
    p.clarification_persisted ∷ p.frozen_checks_passed ∷ []
required_preconditions continue_execution p = p.frozen_checks_passed ∷ []
required_preconditions continue_provider_unlock p =
    p.provider_unlocked ∷ p.frozen_checks_passed ∷ []
required_preconditions continue_blocked_execution p = p.frozen_checks_passed ∷ []
required_preconditions submit_blocked_clarification p = p.clarification_persisted ∷ []
required_preconditions continue_apply_conflict p = p.frozen_checks_passed ∷ []
required_preconditions verification_passed p = p.acceptance_ready ∷ p.changeset_ready ∷ []
required_preconditions confirm_user_acceptance p = p.acceptance_ready ∷ p.changeset_ready ∷ []
required_preconditions confirm_apply p =
    p.frozen_checks_passed ∷ p.changeset_ready ∷ p.apply_confirmation_valid ∷ []
required_preconditions apply_succeeded p = p.writeback_verified ∷ []
required_preconditions rollback_succeeded p = p.rollback_verified ∷ []
required_preconditions request_recovery p = p.recovery_evidence_valid ∷ []
required_preconditions _ p = []
