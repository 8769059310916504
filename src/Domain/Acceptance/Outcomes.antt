-- ===== src/Domain/Acceptance/Outcomes.antt =====
-- What an update brings along is what the constructors accept.
use ai_coding_agent_harness.Domain.Acceptance.Versions.{IsSound, update_is_valid, IsWellFormed}
use ai_coding_agent_harness.Base.{exact, ◌≡◌, refl, true, text_comparable, arith}
use ai_coding_agent_harness.Domain.Text.{is_text, has_nul, is_digest}
use ai_coding_agent_harness.Domain.Models.{ContractVersion}
use ai_coding_agent_harness.Domain.AcceptanceModels.{
  none_or, AcceptanceCondition, AcceptanceContract, MachineEvidence, contract_is_valid,
  condition_is_valid, event_is_valid, evidence_is_valid, command_is_valid, valid_contract_version,
}
use ai_coding_agent_harness.Domain.Acceptance.{
  reason_of, AcceptanceHistoryEvent, command_outcome, UserConfirmationCommand,
  UserConfirmationAction, new_version_is_valid, evidence_outcome,
}
use ai_coding_agent_harness.Domain.Acceptance.Updates.{outcome_of, Update, by_machine, by_user}

old_version_text :
    (contract : AcceptanceContract)
    → contract_is_valid contract ≡ true
    → is_text contract.version.identity ≡ true
unfolding contract_is_valid valid_contract_version
old_version_text contract valid = ground arith

new_version_text :
    (contract : AcceptanceContract) (v : ContractVersion)
    → new_version_is_valid contract (exact v) ≡ true
    → is_text v.identity ≡ true
unfolding new_version_is_valid valid_contract_version
new_version_text contract v version = ground arith

condition_text : (c : AcceptanceCondition) → condition_is_valid c ≡ true → is_text c.identity ≡ true
unfolding condition_is_valid
condition_text c condition = ground arith

-- An event of an update is valid if its texts and digests are.
event_valid :
    (e : AcceptanceHistoryEvent)
    → (is_text e.previous_contract_version_identity ≡ true)
      × (is_text e.new_contract_version_identity ≡ true)
      × (is_text e.condition_identity ≡ true)
      × (is_text e.source_identity ≡ true)
      × (is_text e.source_kind ≡ true)
    → is_digest e.source_digest ≡ true
    → (none_or is_digest e.request_digest ≡ true) × (none_or is_text e.idempotency_key ≡ true)
    → event_is_valid e ≡ true
unfolding event_is_valid
event_valid e (previous, next, condition, source, kind) digest (request, key) =
    simp (previous, next, condition, source, kind, digest, request, key)

evidence_facts :
    (e : MachineEvidence)
    → evidence_is_valid e ≡ true
    → (is_text e.identity ≡ true) × (is_digest e.result_digest ≡ true)
unfolding evidence_is_valid
evidence_facts e valid = (ground arith, ground arith)

command_facts :
    (e : UserConfirmationCommand)
    → command_is_valid e ≡ true
    → (is_text e.identity ≡ true)
      × (is_digest e.request_digest ≡ true)
      × (is_text e.idempotency_key ≡ true)
unfolding command_is_valid
command_facts e valid = (ground arith, ground arith, ground arith)

reason_text : (a : UserConfirmationAction) → is_text (reason_of a) ≡ true
unfolding is_text has_nul
reason_text UserConfirmationAction.confirm = refl
reason_text UserConfirmationAction.reject = refl

-- The texts that the code writes itself.
literal_texts :
    (is_text "MACHINE_EVIDENCE" ≡ true)
    × (is_text "USER_CONFIRMATION" ≡ true)
    × (is_text "MACHINE_EVIDENCE_ACCEPTED" ≡ true)
unfolding is_text has_nul
literal_texts = (refl, refl, refl)

pub well_formed_valid :
    (contract : AcceptanceContract) → IsWellFormed contract → contract_is_valid contract ≡ true
unfolding IsWellFormed
well_formed_valid contract formed = formed.0

pub outcome-IsSound :
    (update : Update) (contract : AcceptanceContract) (c : AcceptanceCondition)
    (v : ContractVersion)
    → contract_is_valid contract ≡ true
    → update_is_valid update ≡ true
    → condition_is_valid c ≡ true
    → new_version_is_valid contract (exact v) ≡ true
    → IsSound (outcome_of update contract c v)
unfolding evidence_outcome command_outcome
outcome-IsSound (by_machine e) contract c v valid update condition version =
    let (source, digest) = evidence_facts e update in
    record {
      reason_is_text = literal_texts.2;
      digest_is_digest = digest;
      event_is_sound =
          event_valid _
            (
              old_version_text contract valid,
              new_version_text contract v version,
              condition_text c condition,
              source,
              literal_texts.0,
            )
            digest (refl, refl);
    }
outcome-IsSound (by_user command) contract c v valid update condition version =
    let (source, digest, key) = command_facts command update in
    record {
      reason_is_text = reason_text command.action;
      digest_is_digest = digest;
      event_is_sound =
          event_valid _
            (
              old_version_text contract valid,
              new_version_text contract v version,
              condition_text c condition,
              source,
              literal_texts.1,
            )
            digest (digest, key);
    }
