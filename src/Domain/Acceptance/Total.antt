-- ===== src/Domain/Acceptance/Total.antt =====
-- Updates of a well-formed contract raise nothing and leave a well-formed contract.
use ai_coding_agent_harness.Domain.Acceptance.Outcomes.{outcome-IsSound, well_formed_valid}
use ai_coding_agent_harness.Domain.Acceptance.Versions.{
  update_is_valid, updated_contract-IsWellFormed, IsWellFormed,
}
use ai_coding_agent_harness.Base.{
  not, ◌&&◌, ◌||◌, absent, other, inl, inr, exact, find_first-all, String, Option-cases, Option,
  false, Bool-cases, some, Object, ◌≡◌, refl, true, ◌==◌, text_comparable,
}
use ai_coding_agent_harness.Domain.Models.{ContractVersion}
use ai_coding_agent_harness.Domain.AcceptanceModels.{
  AcceptanceCondition, AcceptanceContract, MachineEvidence, condition_is_valid, evidence_is_valid,
  command_is_valid,
}
use ai_coding_agent_harness.Domain.Acceptance.{
  command_binds, replayed_update, evidence_binds, some_holds, prior_event, is_machine, answer_to,
  apply_machine_evidence, condition_by_identity, evidence_update, apply_user_confirmation,
  command_update, AcceptanceUpdateResult, invalid_update, accept_update, UserConfirmationCommand,
  versioned_update, updated_contract, new_version_is_valid,
}
use ai_coding_agent_harness.Domain.Acceptance.Updates.{
  answer, outcome_of, Update, by_machine, by_user,
}

-- The last step of an update returns an answer.
versioned_total :
    (update : Update) (contract : AcceptanceContract) (new_version : Object ContractVersion)
    (c : AcceptanceCondition)
    → IsWellFormed contract
    → update_is_valid update ≡ true
    → condition_is_valid c ≡ true
    → (r : AcceptanceUpdateResult) × (versioned_update contract new_version
          (outcome_of update contract c)
        ≡ some r)
      × IsWellFormed r.contract
unfolding versioned_update accept_update invalid_update
versioned_total update contract absent c formed valid condition =
    (invalid_update contract "CONTRACT_VERSION_CONFLICT" true, refl, formed)
versioned_total update contract other c formed valid condition =
    (invalid_update contract "CONTRACT_VERSION_CONFLICT" true, refl, formed)
versioned_total update contract (exact v) c formed valid condition =
    elim (Bool-cases (new_version_is_valid contract (exact v))) [
      | inr bad ↦ (invalid_update contract "CONTRACT_VERSION_CONFLICT" true, simp bad, formed)
      | inl good ↦
          let o = outcome_of update contract c v in
          let (built, whole) = updated_contract-IsWellFormed contract o v formed good (
            outcome-IsSound update contract c v (well_formed_valid contract formed) valid condition
              good) in
          (
            record {
              accepted = true;
              conflict = false;
              duplicate = false;
              reason = o.reason;
              contract = updated_contract contract o v;
            },
            simp (good, built),
            whole,
          )
    ]

found_is_valid :
    (contract : AcceptanceContract) (i : String) {c : AcceptanceCondition}
    → IsWellFormed contract
    → condition_by_identity contract i ≡ some c
    → condition_is_valid c ≡ true
unfolding IsWellFormed condition_by_identity
found_is_valid contract i (valid, conditions, history) found =
    find_first-all (λ c. c.identity == i) condition_is_valid contract.conditions found conditions

-- An answer that returns and keeps the contract well-formed.
abbrev Returns : Option AcceptanceUpdateResult → Type 0
Returns answered = (r : AcceptanceUpdateResult) × (answered ≡ some r) × IsWellFormed r.contract

machine_total :
    (e : MachineEvidence) (contract : AcceptanceContract) (new_version : Object ContractVersion)
    → IsWellFormed contract
    → evidence_is_valid e ≡ true
    → Returns (
        evidence_update contract e new_version
          (condition_by_identity contract e.condition_identity))
unfolding evidence_update invalid_update
machine_total e contract new_version formed valid =
    elim (Option-cases (condition_by_identity contract e.condition_identity)) [
      | inl missing ↦
          (invalid_update contract "MACHINE_EVIDENCE_BINDING_MISMATCH" false, simp missing, formed)
      | inr (c, found) ↦ elim (Bool-cases (is_machine c.kind && evidence_binds contract e c)) [
        | inr unbound ↦ (
          invalid_update contract "MACHINE_EVIDENCE_BINDING_MISMATCH" false,
          simp (found, unbound),
          formed,
        )
        | inl bound ↦
            let (r, same, whole) =
              versioned_total (by_machine e) contract new_version c formed valid
                (found_is_valid contract e.condition_identity formed found) in
            (r, simp (found, bound, same), whole)
      ]
    ]

command_total :
    (command : UserConfirmationCommand) (contract : AcceptanceContract)
    (new_version : Object ContractVersion)
    → IsWellFormed contract
    → command_is_valid command ≡ true
    → Returns (
        command_update contract command new_version
          (condition_by_identity contract command.condition_identity))
unfolding command_update invalid_update
command_total command contract new_version formed valid =
    elim (Option-cases (condition_by_identity contract command.condition_identity)) [
      | inl missing ↦
          (invalid_update contract "USER_CONFIRMATION_BINDING_MISMATCH" false, simp missing, formed)
      | inr (c, found) ↦
          elim (Bool-cases (is_machine c.kind || not (command_binds contract command c))) [
            | inl unbound ↦ (
              invalid_update contract "USER_CONFIRMATION_BINDING_MISMATCH" false,
              simp (found, unbound),
              formed,
            )
            | inr bound ↦
                let (r, same, whole) =
                  versioned_total (by_user command) contract new_version c formed valid
                    (found_is_valid contract command.condition_identity formed found) in
                (r, simp (found, bound, same), whole)
          ]
    ]

-- An update that was constructed is answered for every well-formed contract and every version
-- that is offered, without a `ValueError` of any constructor, and the contract of the answer is
-- well-formed.
pub answer_total :
    (update : Update) (contract : AcceptanceContract) (new_version : Object ContractVersion)
    → IsWellFormed contract
    → update_is_valid update ≡ true
    → (r : AcceptanceUpdateResult) × (answer update contract new_version ≡ some r)
      × IsWellFormed r.contract
unfolding answer apply_machine_evidence apply_user_confirmation answer_to replayed_update
    invalid_update
answer_total (by_machine e) contract new_version formed valid =
    machine_total e contract new_version formed valid
answer_total (by_user command) contract new_version formed valid =
    elim (Option-cases (prior_event contract command.idempotency_key)) [
      | inl fresh ↦
          let (r, same, whole) = command_total command contract new_version formed valid in
          (r, simp (fresh, same), whole)
      | inr (prior, seen) ↦
          elim (Bool-cases (some_holds (λ d. d == command.request_digest) prior.request_digest)) [
            | inl again ↦ (replayed_update contract, simp (seen, again), formed)
            | inr other_digest ↦ (
              invalid_update contract "USER_CONFIRMATION_IDEMPOTENCY_CONFLICT" true,
              simp (seen, other_digest),
              formed,
            )
          ]
    ]
