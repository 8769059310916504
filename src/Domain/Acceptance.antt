-- ===== src/Domain/Acceptance.antt =====
-- `AcceptanceEvaluator` of src/coding_harness/domain/acceptance.py. A `ValueError`, also one of a
-- constructor that the code calls, is `none`. The SHA-256 of the canonical JSON text of an
-- evaluation is the parameter `evaluation_digest`.
pub mod Evaluation
pub mod Updates
pub mod Frames
pub mod Versions
pub mod Outcomes
pub mod Total
pub mod Replays
mod Examples
use ai_coding_agent_harness.Base.Int.{ltb_ℤ}
use ai_coding_agent_harness.Base.{
  String, Bool, true, false, not, ◌&&◌, ◌||◌, Option, none, some, List, [], ◌∷◌, ◌++◌, map, reverse,
  find_first, ◌==◌, ◌!=◌, text_comparable, if◌then◌else◌, all, nonempty, ltb, Object, exact, absent,
  other,
}
use ai_coding_agent_harness.Domain.Models.{ContractVersion}
use ai_coding_agent_harness.Domain.AcceptanceModels.{
  AcceptanceConditionKind, ConditionStatus, UserConfirmationAction, AcceptanceCondition,
  AcceptanceHistoryEvent, AcceptanceContract, MachineEvidence, UserConfirmationCommand,
  AcceptanceUpdateResult, ConditionEvaluation, AcceptanceEvaluation, status_comparable,
  evidence_kind_comparable, some_holds, valid_contract_version, condition_is_valid, event_is_valid,
  contract_is_valid, approval_version_identity,
}

-- `_invalid_update` of a contract
unfoldable pub invalid_update : AcceptanceContract → String → Bool → AcceptanceUpdateResult
invalid_update contract reason conflict = record {
  accepted = false;
  conflict = conflict;
  duplicate = false;
  reason = reason;
  contract = contract;
}

-- `_condition_by_identity`
unfoldable pub condition_by_identity : AcceptanceContract → String → Option AcceptanceCondition
condition_by_identity contract identity =
    find_first (λ c. c.identity == identity) contract.conditions

-- `_new_version_is_valid`
unfoldable pub new_version_is_valid : AcceptanceContract → Object ContractVersion → Bool
new_version_is_valid contract (exact new_version) =
    valid_contract_version contract.task_id new_version
    && ((new_version.identity != contract.version.identity)
        && ltb_ℤ contract.version.sequence new_version.sequence)
new_version_is_valid contract _ = false

-- What an update writes into the condition that it is about.
pub record Outcome : Type 0 where
  pub condition : AcceptanceCondition
  pub new_status : ConditionStatus
  pub reason : String
  pub source_result_digest : String
  pub event : AcceptanceHistoryEvent

unfoldable pub updated_condition :
    Outcome → ContractVersion → AcceptanceCondition → AcceptanceCondition
updated_condition o new_version item =
    let this = item.identity == o.condition.identity in
    record item {
      status = if this then o.new_status else item.status;
      expected_contract_version_identity = new_version.identity;
      reason = if this then o.reason else item.reason;
      source_result_digest =
          if this then some o.source_result_digest else item.source_result_digest;
    }

-- `_updated_contract`, before the checks of the constructors.
unfoldable pub updated_contract :
    AcceptanceContract → Outcome → ContractVersion → AcceptanceContract
updated_contract contract o new_version = record {
  task_id = contract.task_id;
  version = new_version;
  conditions = map (updated_condition o new_version) contract.conditions;
  approved = false;
  history = contract.history ++ (o.event ∷ []);
}

-- Whether the constructors of the event, the conditions and the contract accept their fields.
unfoldable pub constructs : AcceptanceHistoryEvent → AcceptanceContract → Bool
constructs event updated =
    event_is_valid event && (all condition_is_valid updated.conditions && contract_is_valid updated)

unfoldable pub accept_update :
    AcceptanceContract → Outcome → ContractVersion → Option AcceptanceUpdateResult
accept_update contract o new_version =
    let updated = updated_contract contract o new_version in
    if constructs o.event updated
    then some (record {
      accepted = true;
      conflict = false;
      duplicate = false;
      reason = o.reason;
      contract = updated;
    })
    else none

-- The update with a version that is to be valid.
unfoldable pub versioned_update :
    AcceptanceContract
    → Object ContractVersion
    → (ContractVersion → Outcome)
    → Option AcceptanceUpdateResult
versioned_update contract (exact new_version) outcome =
    if not (new_version_is_valid contract (exact new_version))
    then some (invalid_update contract "CONTRACT_VERSION_CONFLICT" true)
    else accept_update contract (outcome new_version) new_version
versioned_update contract _ outcome =
    some (invalid_update contract "CONTRACT_VERSION_CONFLICT" true)

abbrev pub is_machine : AcceptanceConditionKind → Bool
is_machine AcceptanceConditionKind.machine = true
is_machine AcceptanceConditionKind.user_confirmation = false

unfoldable pub evidence_binds : AcceptanceContract → MachineEvidence → AcceptanceCondition → Bool
evidence_binds contract e c =
    (e.contract_version_identity == contract.version.identity)
    && ((c.expected_contract_version_identity == contract.version.identity)
        && (some_holds (λ k. e.kind == k) c.expected_evidence_kind
            && (some_holds (λ k. e.producer_identity == k) c.expected_producer_identity
                && (some_holds (λ k. e.command_identity == k) c.expected_command_identity
                    && (some_holds (λ k. e.input_digest == k) c.expected_input_digest
                        && (some_holds (λ k. e.baseline_manifest_digest == k)
                              c.expected_baseline_manifest_digest
                            && (some_holds (λ k. e.changeset_digest == k)
                                  c.expected_changeset_digest
                                && (e.expected_status == c.status))))))))

unfoldable pub evidence_outcome :
    AcceptanceContract → MachineEvidence → AcceptanceCondition → ContractVersion → Outcome
evidence_outcome contract e c new_version = record {
  condition = c;
  new_status = e.status;
  reason = "MACHINE_EVIDENCE_ACCEPTED";
  source_result_digest = e.result_digest;
  event = record {
    previous_contract_version_identity = contract.version.identity;
    new_contract_version_identity = new_version.identity;
    condition_identity = c.identity;
    previous_status = c.status;
    new_status = e.status;
    source_identity = e.identity;
    source_kind = "MACHINE_EVIDENCE";
    source_digest = e.result_digest;
    request_digest = none;
    idempotency_key = none;
  };
}

unfoldable pub evidence_update :
    AcceptanceContract
    → MachineEvidence
    → Object ContractVersion
    → Option AcceptanceCondition
    → Option AcceptanceUpdateResult
evidence_update contract e new_version none =
    some (invalid_update contract "MACHINE_EVIDENCE_BINDING_MISMATCH" false)
evidence_update contract e new_version (some c) =
    if not (is_machine c.kind && evidence_binds contract e c)
    then some (invalid_update contract "MACHINE_EVIDENCE_BINDING_MISMATCH" false)
    else versioned_update contract new_version (evidence_outcome contract e c)

-- `AcceptanceEvaluator.apply_machine_evidence`
unfoldable pub apply_machine_evidence :
    Object AcceptanceContract
    → Object MachineEvidence
    → Object ContractVersion
    → Option AcceptanceUpdateResult
apply_machine_evidence (exact contract) (exact e) new_version =
    evidence_update contract e new_version (condition_by_identity contract e.condition_identity)
apply_machine_evidence (exact contract) _ new_version =
    some (invalid_update contract "INVALID_MACHINE_EVIDENCE" false)
apply_machine_evidence _ _ new_version = none

-- The latest event under a key.
unfoldable pub prior_event : AcceptanceContract → String → Option AcceptanceHistoryEvent
prior_event contract key =
    find_first (λ e. some_holds (λ k. k == key) e.idempotency_key) (reverse contract.history)

unfoldable pub command_binds :
    AcceptanceContract → UserConfirmationCommand → AcceptanceCondition → Bool
command_binds contract command c =
    (command.authority == "user")
    && ((command.task_id == contract.task_id)
        && ((command.contract_version_identity == contract.version.identity)
            && ((c.expected_contract_version_identity == contract.version.identity)
                && (command.expected_status == c.status))))

abbrev pub status_for : UserConfirmationAction → ConditionStatus
status_for UserConfirmationAction.confirm = ConditionStatus.passed
status_for UserConfirmationAction.reject = ConditionStatus.failed

abbrev pub reason_of : UserConfirmationAction → String
reason_of UserConfirmationAction.confirm = "USER_CONFIRMED"
reason_of UserConfirmationAction.reject = "USER_REJECTED"

unfoldable pub command_outcome :
    AcceptanceContract → UserConfirmationCommand → AcceptanceCondition → ContractVersion → Outcome
command_outcome contract command c new_version = record {
  condition = c;
  new_status = status_for command.action;
  reason = reason_of command.action;
  source_result_digest = command.request_digest;
  event = record {
    previous_contract_version_identity = contract.version.identity;
    new_contract_version_identity = new_version.identity;
    condition_identity = c.identity;
    previous_status = c.status;
    new_status = status_for command.action;
    source_identity = command.identity;
    source_kind = "USER_CONFIRMATION";
    source_digest = command.request_digest;
    request_digest = some command.request_digest;
    idempotency_key = some command.idempotency_key;
  };
}

unfoldable pub command_update :
    AcceptanceContract
    → UserConfirmationCommand
    → Object ContractVersion
    → Option AcceptanceCondition
    → Option AcceptanceUpdateResult
command_update contract command new_version none =
    some (invalid_update contract "USER_CONFIRMATION_BINDING_MISMATCH" false)
command_update contract command new_version (some c) =
    if is_machine c.kind || not (command_binds contract command c)
    then some (invalid_update contract "USER_CONFIRMATION_BINDING_MISMATCH" false)
    else versioned_update contract new_version (command_outcome contract command c)

-- The answer to a command that was accepted before.
unfoldable pub replayed_update : AcceptanceContract → AcceptanceUpdateResult
replayed_update contract = record {
  accepted = true;
  conflict = false;
  duplicate = true;
  reason = "USER_CONFIRMATION_REPLAY";
  contract = contract;
}

-- The answer to a command, behind the latest event under its key.
unfoldable pub answer_to :
    AcceptanceContract
    → UserConfirmationCommand
    → Object ContractVersion
    → Option AcceptanceHistoryEvent
    → Option AcceptanceUpdateResult
answer_to contract command new_version (some prior) =
    if some_holds (λ d. d == command.request_digest) prior.request_digest
    then some (replayed_update contract)
    else some (invalid_update contract "USER_CONFIRMATION_IDEMPOTENCY_CONFLICT" true)
answer_to contract command new_version none =
    command_update contract command new_version
      (condition_by_identity contract command.condition_identity)

-- `AcceptanceEvaluator.apply_user_confirmation`
unfoldable pub apply_user_confirmation :
    Object AcceptanceContract
    → Object UserConfirmationCommand
    → Object ContractVersion
    → Option AcceptanceUpdateResult
apply_user_confirmation (exact contract) (exact command) new_version =
    answer_to contract command new_version (prior_event contract command.idempotency_key)
apply_user_confirmation (exact contract) _ new_version =
    some (invalid_update contract "INVALID_USER_CONFIRMATION" false)
apply_user_confirmation _ _ new_version = none
