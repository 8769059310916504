-- ===== src/Domain/Acceptance/Updates.antt =====
-- What an accepted update changes, and what it leaves alone.
use ai_coding_agent_harness.Base.{
  ◌==◌, text_comparable, sym, ◌∙◌, String, ◌≡◌, refl, ◌⊎◌, inl, inr, Bool, true, false, not, ◌&&◌,
  ◌||◌, Option, some, Object, exact, absent, other, arith, Bool-cases, Option-cases,
}
use ai_coding_agent_harness.Domain.Models.{ContractVersion}
use ai_coding_agent_harness.Domain.AcceptanceModels.{
  AcceptanceCondition, AcceptanceContract, MachineEvidence, UserConfirmationCommand,
  AcceptanceUpdateResult,
}
use ai_coding_agent_harness.Domain.Acceptance.{
  some_holds, replayed_update, evidence_binds, command_binds, Outcome, updated_contract,
  accept_update, versioned_update, invalid_update, is_machine, evidence_update, evidence_outcome,
  apply_machine_evidence, command_update, command_outcome, apply_user_confirmation, answer_to,
  prior_event, condition_by_identity, new_version_is_valid, constructs,
}

-- The two ways in which a contract is updated.
pub data Update : Type 0 where
  by_machine : MachineEvidence → Update
  by_user : UserConfirmationCommand → Update

unfoldable pub answer :
    Update → AcceptanceContract → Object ContractVersion → Option AcceptanceUpdateResult
answer (by_machine e) contract new_version =
    apply_machine_evidence (exact contract) (exact e) new_version
answer (by_user command) contract new_version =
    apply_user_confirmation (exact contract) (exact command) new_version

-- Whether the update is of machine evidence, and which condition it names.
abbrev pub comes_from_machine : Update → Bool
comes_from_machine (by_machine e) = true
comes_from_machine (by_user command) = false

abbrev pub named_condition : Update → String
named_condition (by_machine e) = e.condition_identity
named_condition (by_user command) = command.condition_identity

abbrev pub outcome_of :
    Update → AcceptanceContract → AcceptanceCondition → ContractVersion → Outcome
outcome_of (by_machine e) contract c new_version = evidence_outcome contract e c new_version
outcome_of (by_user command) contract c new_version = command_outcome contract command c new_version

-- The answer changes the contract: it is the updated one, for a condition of the update's kind.
pub record Changes (update : Update) (contract : AcceptanceContract)
    (new_version : Object ContractVersion) (r : AcceptanceUpdateResult) : Type 0 where
  pub condition : AcceptanceCondition
  pub version : ContractVersion
  pub found : condition_by_identity contract (named_condition update) ≡ some condition
  pub of_kind : is_machine condition.kind ≡ comes_from_machine update
  pub is_version : new_version ≡ exact version
  pub version_is_valid : new_version_is_valid contract (exact version) ≡ true
  pub updated :
      r.contract ≡ updated_contract contract (outcome_of update contract condition version) version
  pub constructed :
      constructs (outcome_of update contract condition version).event r.contract ≡ true
  pub is_new : (r.accepted ≡ true) × (r.duplicate ≡ false)

versioned_cases :
    (contract : AcceptanceContract) (new_version : Object ContractVersion)
    (outcome : ContractVersion → Outcome) {r : AcceptanceUpdateResult}
    → versioned_update contract new_version outcome ≡ some r
    → ((r.accepted ≡ false) × (r.contract ≡ contract))
      ⊎ ((v : ContractVersion) × (new_version ≡ exact v)
          × (new_version_is_valid contract (exact v) ≡ true)
          × (r.contract ≡ updated_contract contract (outcome v) v)
          × (constructs (outcome v).event r.contract ≡ true)
          × (r.accepted ≡ true)
          × (r.duplicate ≡ false))
unfolding versioned_update accept_update invalid_update
versioned_cases contract (exact v) outcome h =
    elim (Bool-cases (new_version_is_valid contract (exact v))) [
      | inr bad ↦ inl (ground arith)
      | inl good ↦
          elim (Bool-cases
            (constructs (outcome v).event (updated_contract contract (outcome v) v))) [
              | inr bad ↦ absurd (ground arith)
              | inl built ↦
                  inr (v, refl, good, ground arith, ground arith, ground arith, ground arith)
            ]
    ]
versioned_cases contract absent outcome h = inl (ground arith)
versioned_cases contract other outcome h = inl (ground arith)

-- An answer that refuses the update, and one that leaves the contract as it is.
abbrev pub Refuses : AcceptanceContract → AcceptanceUpdateResult → Type 0
Refuses contract r = (r.accepted ≡ false) × (r.contract ≡ contract)

abbrev pub Leaves : AcceptanceContract → AcceptanceUpdateResult → Type 0
Leaves contract r = ((r.accepted ≡ false) ⊎ (r.duplicate ≡ true)) × (r.contract ≡ contract)

module _ (update : Update) (contract : AcceptanceContract) (new_version : Object ContractVersion)
    (c : AcceptanceCondition) {r : AcceptanceUpdateResult} where
  -- The last step of both updates.
  versioned_answer :
      condition_by_identity contract (named_condition update) ≡ some c
      → is_machine c.kind ≡ comes_from_machine update
      → versioned_update contract new_version (outcome_of update contract c) ≡ some r
      → Refuses contract r ⊎ Changes update contract new_version r
  versioned_answer found of_kind h =
      elim (versioned_cases contract new_version (outcome_of update contract c) h) [
        | inl (refused, same) ↦ inl (refused, same)
        | inr (v, is_version, good, updated, built, accepted, fresh) ↦ inr (record {
          condition = c;
          version = v;
          found = found;
          of_kind = of_kind;
          is_version = is_version;
          version_is_valid = good;
          updated = updated;
          constructed = built;
          is_new = (accepted, fresh);
        })
      ]

pub machine_answer_cases :
    (e : MachineEvidence) (contract : AcceptanceContract) (new_version : Object ContractVersion)
    {r : AcceptanceUpdateResult}
    → evidence_update contract e new_version (condition_by_identity contract e.condition_identity)
      ≡ some r
    → Refuses contract r ⊎ Changes (by_machine e) contract new_version r
unfolding evidence_update invalid_update
machine_answer_cases e contract new_version {r} h =
    elim (Option-cases (condition_by_identity contract e.condition_identity)) [
      | inl missing ↦ inl (ground arith, ground arith)
      | inr (c, found) ↦ elim (Bool-cases (is_machine c.kind && evidence_binds contract e c)) [
        | inr unbound ↦ inl (ground arith, ground arith)
        | inl bound ↦
            versioned_answer (by_machine e) contract new_version c found (ground arith)
              (sym (simp (found, bound)) ∙ h)
      ]
    ]

pub command_answer_cases :
    (command : UserConfirmationCommand) (contract : AcceptanceContract)
    (new_version : Object ContractVersion) {r : AcceptanceUpdateResult}
    → command_update contract command new_version
        (condition_by_identity contract command.condition_identity)
      ≡ some r
    → Refuses contract r ⊎ Changes (by_user command) contract new_version r
unfolding command_update invalid_update
command_answer_cases command contract new_version {r} h =
    elim (Option-cases (condition_by_identity contract command.condition_identity)) [
      | inl missing ↦ inl (ground arith, ground arith)
      | inr (c, found) ↦
          elim (Bool-cases (is_machine c.kind || not (command_binds contract command c))) [
            | inl unbound ↦ inl (ground arith, ground arith)
            | inr bound ↦
                versioned_answer (by_user command) contract new_version c found (ground arith)
                  (sym (simp (found, bound)) ∙ h)
          ]
    ]

-- An answer either leaves the contract as it is or changes it.
pub answer_cases :
    (update : Update) (contract : AcceptanceContract) (new_version : Object ContractVersion)
    {r : AcceptanceUpdateResult}
    → answer update contract new_version ≡ some r
    → Leaves contract r ⊎ Changes update contract new_version r
unfolding answer apply_machine_evidence apply_user_confirmation answer_to invalid_update
    replayed_update
answer_cases (by_machine e) contract new_version h =
    elim (machine_answer_cases e contract new_version h) [
      | inl (refused, same) ↦ inl (inl refused, same)
      | inr changes ↦ inr changes
    ]
answer_cases (by_user command) contract new_version {r} h =
    elim (Option-cases (prior_event contract command.idempotency_key)) [
      | inr (prior, seen) ↦
          elim (Bool-cases (some_holds (λ d. d == command.request_digest) prior.request_digest)) [
            | inl again ↦ inl (ground arith)
            | inr differs ↦ inl (ground arith)
          ]
      | inl fresh ↦
          elim (command_answer_cases command contract new_version (sym (simp fresh) ∙ h)) [
            | inl (refused, same) ↦ inl (inl refused, same)
            | inr changes ↦ inr changes
          ]
    ]
