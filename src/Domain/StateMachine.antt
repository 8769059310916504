-- ===== src/Domain/StateMachine.antt =====
-- `StateMachine` of src/coding_harness/domain/state_machine.py: every static method, composed as
-- there. `type(reason) is not BlockedReason` is `none`.
pub mod Spec
pub mod Branches
pub mod Sound
pub mod Complete
pub mod Replay
pub mod Runs
pub mod Effects
pub mod Closing
mod Examples
use ai_coding_agent_harness.Base.{
  Bool, true, false, not, ◌||◌, Option, none, some, ◌==◌, ◌!=◌, text_comparable, if◌then◌else◌, any,
}
use ai_coding_agent_harness.Domain.Enums.{
  TaskState, task_state_eq, transition_trigger_eq, terminal_states, TransitionTrigger,
  TransitionReason, IdempotencyStatus,
}
use ai_coding_agent_harness.Domain.Models.{IdempotencyRecord, TransitionCommand, TransitionResult}
use ai_coding_agent_harness.Domain.Transitions.{
  transitions, cancellable_states, blocked_reason_sources, failure_reason_sources,
  lease_acquisition_triggers, agent_loop_triggers, required_preconditions,
}

-- The record that `_result` stores: the caller's, or a fresh one for a new request.
abbrev record_for :
    TransitionCommand
    → TaskState
    → Bool
    → TransitionReason
    → IdempotencyStatus
    → Option IdempotencyRecord
    → Option IdempotencyRecord
record_for c target permitted reason status (some r) = some r
record_for c target permitted reason IdempotencyStatus.new none = some (record {
  key = c.idempotency.key;
  request_digest = c.idempotency.request_digest;
  source = c.current_state;
  target = target;
  trigger = c.trigger;
  permitted = permitted;
  reason = reason;
})
record_for c target permitted reason _ none = none

-- `_result`
pub result :
    TransitionCommand
    → TaskState
    → Bool
    → Bool
    → Bool
    → TransitionReason
    → Bool
    → Bool
    → IdempotencyStatus
    → Option IdempotencyRecord
    → TransitionResult
result c target permitted should_apply changed reason lease resume status prior = record {
  source = c.current_state;
  target = target;
  permitted = permitted;
  should_apply = should_apply;
  changed = changed;
  reason = reason;
  audit = record {
    source = c.current_state;
    target = target;
    trigger = c.trigger;
    permitted = permitted;
    reason = reason;
  };
  lease_acquisition_required = lease;
  agent_loop_resume_permitted = resume;
  idempotency_status = status;
  idempotency_record = record_for c target permitted reason status prior;
}

-- `_denied` with its two keyword arguments
pub denied_with :
    TransitionCommand
    → TransitionReason
    → IdempotencyStatus
    → Option IdempotencyRecord
    → TransitionResult
unfolding result
denied_with c reason status prior =
    result c c.current_state false false false reason false false status prior

-- `_denied` with their defaults
pub denied : TransitionCommand → TransitionReason → TransitionResult
unfolding denied_with
denied c reason = denied_with c reason IdempotencyStatus.new none

-- `_permitted`
pub permitted_to : TransitionCommand → TaskState → TransitionReason → Bool → Bool → TransitionResult
unfolding result
permitted_to c target reason lease resume =
    result c target true true (target != c.current_state) reason lease resume IdempotencyStatus.new
      none

-- The answer that `_idempotency_replay` rebuilds from a record.
pub replay_of : IdempotencyRecord → TransitionResult
replay_of prior = record {
  source = prior.source;
  target = prior.target;
  permitted = prior.permitted;
  should_apply = false;
  changed = false;
  reason = prior.reason;
  audit = record {
    source = prior.source;
    target = prior.target;
    trigger = prior.trigger;
    permitted = prior.permitted;
    reason = prior.reason;
  };
  lease_acquisition_required = false;
  agent_loop_resume_permitted = false;
  idempotency_status = IdempotencyStatus.replayed;
  idempotency_record = some prior;
}

-- `_idempotency_replay`
pub idempotency_replay : TransitionCommand → Option TransitionResult
unfolding denied_with replay_of
idempotency_replay c = elim c.prior_idempotency [
  | none ↦ none
  | some prior ↦
      if prior.key != c.idempotency.key
      then none
      else if prior.request_digest != c.idempotency.request_digest
      then some (
          denied_with c TransitionReason.idempotency_conflict IdempotencyStatus.conflict
            (some prior))
      else some (replay_of prior)
]

pub plan_matches : TransitionCommand → Bool
plan_matches c = elim c.expected_plan_identity [
  | none ↦ true
  | some expected ↦ elim c.current_plan_version [
    | none ↦ false
    | some plan ↦ plan.identity == expected
  ]
]

pub contract_matches : TransitionCommand → Bool
contract_matches c = elim c.expected_contract_identity [
  | none ↦ true
  | some expected ↦ elim c.current_contract_version [
    | none ↦ false
    | some contract ↦ contract.identity == expected
  ]
]

-- `_versions_match`: the plan's checks, then the contract's.
pub versions_match : TransitionCommand → Bool
unfolding plan_matches contract_matches
versions_match c = if plan_matches c then contract_matches c else false

-- `_cancel`
pub cancel : TransitionCommand → TransitionResult
unfolding denied permitted_to
cancel c =
    if not (cancellable_states c.current_state)
    then denied c TransitionReason.illegal_transition
    else if not c.preconditions.safe_cleanup_completed
    then denied c TransitionReason.precondition_failed
    else permitted_to c TaskState.cancelled TransitionReason.permitted false false

-- `_block`
pub block : TransitionCommand → TransitionResult
unfolding denied permitted_to
block c = elim c.blocked_reason [
  | none ↦ denied c TransitionReason.invalid_reason
  | some reason ↦
      if not (blocked_reason_sources reason c.current_state)
      then denied c TransitionReason.invalid_reason
      else if not c.preconditions.active_execution_confirmed
          || not c.preconditions.safe_cleanup_completed
      then denied c TransitionReason.precondition_failed
      else permitted_to c TaskState.blocked TransitionReason.permitted false false
]

-- `_fail`
pub fail : TransitionCommand → TransitionResult
unfolding denied permitted_to
fail c = elim c.failure_reason [
  | none ↦ denied c TransitionReason.invalid_reason
  | some reason ↦
      if not (failure_reason_sources reason c.current_state)
      then denied c TransitionReason.invalid_reason
      else if not c.preconditions.active_execution_confirmed
          || not c.preconditions.safe_cleanup_completed
      then denied c TransitionReason.precondition_failed
      else permitted_to c TaskState.failed TransitionReason.permitted false false
]

-- `_recovery_noop`
pub recovery_noop : TransitionCommand → TransitionResult
unfolding result
recovery_noop c =
    result c TaskState.recovery_required true false false TransitionReason.recovery_already_required
      false false IdempotencyStatus.new none

-- The part of `transition` behind the three special triggers, from `_target_for` on.
pub table_transition : TransitionCommand → TransitionResult
unfolding denied permitted_to
table_transition c = elim (transitions c.current_state c.trigger) [
  | none ↦ denied c TransitionReason.illegal_transition
  | some target ↦
      if any not (required_preconditions c.trigger c.preconditions)
      then denied c TransitionReason.precondition_failed
      else permitted_to c target TransitionReason.permitted (lease_acquisition_triggers c.trigger)
          (agent_loop_triggers c.trigger)
]

-- The part of `transition` behind the idempotency, state and version checks.
pub checked_transition : TransitionCommand → TransitionResult
unfolding denied permitted_to recovery_noop
checked_transition c =
    if terminal_states c.current_state
    then denied c TransitionReason.terminal_state
    else if c.uncertain_file_effect
    then (if c.current_state == TaskState.recovery_required
        then recovery_noop c
        else permitted_to c TaskState.recovery_required TransitionReason.uncertain_effect_recovery
            false false)
    else if c.trigger == TransitionTrigger.cancel_task
    then cancel c
    else if c.trigger == TransitionTrigger.enter_blocked
    then block c
    else if c.trigger == TransitionTrigger.fail_unrecoverably
    then fail c
    else table_transition c

-- `StateMachine.transition`
pub transition : TransitionCommand → TransitionResult
unfolding denied
transition c = elim (idempotency_replay c) [
  | some replay ↦ replay
  | none ↦
      if c.expected_state != c.current_state
      then denied c TransitionReason.expected_state_conflict
      else if not (versions_match c)
      then denied c TransitionReason.expected_version_conflict
      else checked_transition c
]
