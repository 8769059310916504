-- ===== src/Domain/Acceptance/Examples.antt =====
-- An acceptance contract with a check by machine and a confirmation by the user.
use ai_coding_agent_harness.Base.Int.{pos}
use ai_coding_agent_harness.Base.{
  ℕ, String, ◌≡◌, ◌↔◌, refl, Bool, true, false, Option, none, some, List, [], ◌∷◌, ◌++◌, All,
  Corresponds, exact, absent, find_first,
}
use ai_coding_agent_harness.Domain.Text.{is_text, has_nul, is_digest, text_length, all_hex}
use ai_coding_agent_harness.Domain.Models.{ContractVersion}
use ai_coding_agent_harness.Domain.AcceptanceModels.{
  AcceptanceConditionKind, ConditionStatus, ConditionStatus-discrete, MachineEvidenceKind,
  MachineEvidenceKind-discrete, UserConfirmationAction, AcceptanceCondition, AcceptanceContract,
  AcceptanceHistoryEvent, UserConfirmationCommand, AcceptanceUpdateResult, ConditionEvaluation,
  valid_contract_version, bindings_are_valid, condition_is_valid, event_is_valid, are_unique,
  contract_is_valid, command_is_valid,
}
use ai_coding_agent_harness.Domain.Acceptance.{
  invalid_update, condition_by_identity, new_version_is_valid, updated_condition, updated_contract,
  constructs, accept_update, versioned_update, prior_event, command_binds, command_outcome,
  command_update, answer_to, apply_user_confirmation, replayed_update,
}
use ai_coding_agent_harness.Domain.Acceptance.Evaluation.{evaluate, IsMet, evaluate_applies_iff}
use ai_coding_agent_harness.Domain.Acceptance.Updates.{by_user, answer}
use ai_coding_agent_harness.Domain.Acceptance.Frames.{Keeps, answer_changes}
use ai_coding_agent_harness.Domain.Acceptance.Versions.{IsWellFormed}
use ai_coding_agent_harness.Domain.Acceptance.Total.{answer_total}
use ai_coding_agent_harness.Domain.Acceptance.Replays.{confirmation_replay}

program : Unit {0}
unfolding is_text has_nul is_digest text_length all_hex ConditionStatus-discrete
    MachineEvidenceKind-discrete valid_contract_version bindings_are_valid condition_is_valid
    event_is_valid are_unique contract_is_valid command_is_valid invalid_update
    condition_by_identity new_version_is_valid updated_condition updated_contract constructs
    accept_update versioned_update prior_event command_binds command_outcome command_update
    answer_to apply_user_confirmation replayed_update answer find_first IsWellFormed evaluate
program = tt

abbrev hash : String
hash = "abcdef0123456789abcdef0123456789abcdef0123456789abcdef0123456789"

abbrev version : String → ℕ → ContractVersion
version identity sequence = record {
  identity = identity;
  task_id = "task-1";
  sequence = pos sequence;
  content_digest = hash;
  display_text = "contract";
}

abbrev tests_pass : AcceptanceCondition
tests_pass = record {
  identity = "tests";
  display_text = "the tests pass";
  kind = AcceptanceConditionKind.machine;
  required = true;
  status = ConditionStatus.passed;
  expected_contract_version_identity = "v1";
  expected_evidence_kind = some MachineEvidenceKind.validation;
  expected_producer_identity = some "runner";
  expected_command_identity = some "pytest";
  expected_input_digest = some hash;
  expected_baseline_manifest_digest = some hash;
  expected_changeset_digest = some hash;
  reason = "MACHINE_EVIDENCE_ACCEPTED";
  source_result_digest = some hash;
}

abbrev looks_right : AcceptanceCondition
looks_right = record tests_pass {
  identity = "look";
  display_text = "it looks right";
  kind = AcceptanceConditionKind.user_confirmation;
  status = ConditionStatus.not_run;
  expected_evidence_kind = none;
  expected_producer_identity = none;
  expected_command_identity = none;
  expected_input_digest = none;
  expected_baseline_manifest_digest = none;
  expected_changeset_digest = none;
  reason = "NOT_EVALUATED";
  source_result_digest = none;
}

abbrev contract : AcceptanceContract
contract = record {
  task_id = "task-1";
  version = version "v1" 1;
  conditions = tests_pass ∷ looks_right ∷ [];
  approved = true;
  history = [];
}

abbrev confirmation : UserConfirmationCommand
confirmation = record {
  identity = "confirm-1";
  task_id = "task-1";
  contract_version_identity = "v1";
  condition_identity = "look";
  expected_status = ConditionStatus.not_run;
  action = UserConfirmationAction.confirm;
  request_digest = hash;
  idempotency_key = "key-1";
  occurred_at = 7;
  authority = "user";
}

abbrev digest : Option String → Bool → List ConditionEvaluation → Bool → String → String
digest version approved results eligible reason = reason

evaluate_applies_iff_example :
    ((evaluate digest (exact contract) (exact "v1") (exact "apply now")).should_apply ≡ true) ↔ (
      (contract.version.identity ≡ contract.version.identity)
      × (contract.approved ≡ true)
      × All IsMet (tests_pass ∷ looks_right ∷ []))
evaluate_applies_iff_example = evaluate_applies_iff digest contract "v1" (exact "apply now")

abbrev confirmed : AcceptanceUpdateResult
confirmed = record {
  accepted = true;
  conflict = false;
  duplicate = false;
  reason = "USER_CONFIRMED";
  contract =
      updated_contract contract (command_outcome contract confirmation looks_right (version "v2" 2))
        (version "v2" 2);
}

is_confirmed : answer (by_user confirmation) contract (exact (version "v2" 2)) ≡ some confirmed
unfolding program
is_confirmed = refl

answer_changes_example :
    (confirmed.contract.approved ≡ false)
    × ((event : AcceptanceHistoryEvent) × (confirmed.contract.history ≡ [] ++ (event ∷ [])))
    × Corresponds
        (Keeps (by_user confirmation))
        (tests_pass ∷ looks_right ∷ [])
        confirmed.contract.conditions
unfolding program
answer_changes_example =
    answer_changes (by_user confirmation) contract (exact (version "v2" 2)) {r = confirmed} refl
      is_confirmed refl refl

answer_total_example :
    (r : AcceptanceUpdateResult) × (answer (by_user confirmation) contract absent ≡ some r)
    × IsWellFormed r.contract
unfolding program
answer_total_example = answer_total (by_user confirmation) contract absent (refl, refl, refl) refl

confirmation_replay_example :
    apply_user_confirmation (exact confirmed.contract) (exact confirmation) absent
    ≡ some (replayed_update confirmed.contract)
unfolding program
confirmation_replay_example =
    confirmation_replay confirmation contract (exact (version "v2" 2)) absent {r = confirmed} refl
      refl
