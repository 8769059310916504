-- ===== src/Domain/Acceptance/Versions.antt =====
-- Well-formed contracts: what the update of one leaves.
use ai_coding_agent_harness.Base.{
  exact, ◌≡◌, refl, Bool, true, List, [], ◌∷◌, map, ◌==◌, text_comparable, all, nonempty, all-map,
  all-append, arith, same_iff, ◌∙◌, ap,
}
use ai_coding_agent_harness.Domain.Text.{is_text, is_digest}
use ai_coding_agent_harness.Domain.Models.{ContractVersion}
use ai_coding_agent_harness.Domain.AcceptanceModels.{
  AcceptanceConditionKind, AcceptanceCondition, AcceptanceContract, are_unique, identities,
  contract_is_valid, condition_is_valid, bindings_are_valid, event_is_valid, evidence_is_valid,
  command_is_valid, valid_contract_version,
}
use ai_coding_agent_harness.Domain.Acceptance.{
  Outcome, updated_condition, updated_contract, constructs, new_version_is_valid,
}
use ai_coding_agent_harness.Domain.Acceptance.Updates.{Update, by_machine, by_user}

-- The constructors accept the contract, its conditions and its history.
unfoldable pub IsWellFormed : AcceptanceContract → Type 0
IsWellFormed contract =
    (contract_is_valid contract ≡ true)
    × (all condition_is_valid contract.conditions ≡ true)
    × (all event_is_valid contract.history ≡ true)

abbrev pub update_is_valid : Update → Bool
update_is_valid (by_machine e) = evidence_is_valid e
update_is_valid (by_user command) = command_is_valid command

bindings_stay :
    (o : Outcome) (v : ContractVersion) (k : AcceptanceConditionKind) (c : AcceptanceCondition)
    → bindings_are_valid k (updated_condition o v c) ≡ bindings_are_valid k c
unfolding bindings_are_valid updated_condition
bindings_stay o v AcceptanceConditionKind.machine c = refl
bindings_stay o v AcceptanceConditionKind.user_confirmation c = refl

updated_condition_is_valid :
    (o : Outcome) (v : ContractVersion)
    → is_text v.identity ≡ true
    → is_text o.reason ≡ true
    → is_digest o.source_result_digest ≡ true
    → (c : AcceptanceCondition) → condition_is_valid c ≡ true
    → condition_is_valid (updated_condition o v c) ≡ true
unfolding condition_is_valid updated_condition
updated_condition_is_valid o v identity reason digest c valid =
    ground (arith, bindings_stay o v c.kind c)

identities-updated :
    (o : Outcome) (v : ContractVersion) (ds : List AcceptanceCondition)
    → identities (map (updated_condition o v) ds) ≡ identities ds
unfolding updated_condition
identities-updated o v [] = refl
identities-updated o v (d ∷ ds) = ap (λ rest. d.identity ∷ rest) (identities-updated o v ds)

bound_to_version :
    (o : Outcome) (v : ContractVersion) (ds : List AcceptanceCondition)
    → all (λ d. d.expected_contract_version_identity == v.identity) (map (updated_condition o v) ds)
      ≡ true
unfolding updated_condition
bound_to_version o v [] = refl
bound_to_version o v (d ∷ ds) =
    ground (arith, same_iff v.identity v.identity, bound_to_version o v ds)

-- What an outcome must bring along.
pub record IsSound (o : Outcome) : Type 0 where
  pub reason_is_text : is_text o.reason ≡ true
  pub digest_is_digest : is_digest o.source_result_digest ≡ true
  pub event_is_sound : event_is_valid o.event ≡ true

nonempty-updated :
    (o : Outcome) (v : ContractVersion) (ds : List AcceptanceCondition)
    → nonempty (map (updated_condition o v) ds) ≡ nonempty ds
nonempty-updated o v [] = refl
nonempty-updated o v (d ∷ ds) = refl

pub updated_contract-IsWellFormed :
    (contract : AcceptanceContract) (o : Outcome) (v : ContractVersion)
    → IsWellFormed contract
    → new_version_is_valid contract (exact v) ≡ true
    → IsSound o
    → (constructs o.event (updated_contract contract o v) ≡ true)
      × IsWellFormed (updated_contract contract o v)
unfolding IsWellFormed constructs updated_contract new_version_is_valid valid_contract_version
    contract_is_valid
updated_contract-IsWellFormed contract o v (valid, conditions, history) version sound =
    let conds =
      all-map (updated_condition o v) condition_is_valid condition_is_valid
        (updated_condition_is_valid o v (ground arith) sound.reason_is_text sound.digest_is_digest)
        contract.conditions conditions in
    let unique : are_unique (identities (map (updated_condition o v) contract.conditions)) ≡ true =
      ap are_unique (identities-updated o v contract.conditions) ∙ ground arith in
    let some_left : nonempty (map (updated_condition o v) contract.conditions) ≡ true =
      nonempty-updated o v contract.conditions ∙ ground arith in
    let bound = bound_to_version o v contract.conditions in
    let whole : contract_is_valid (updated_contract contract o v) ≡ true =
      ground (arith, unique, some_left, bound) in
    let kept =
      all-append event_is_valid contract.history (o.event ∷ []) history
        (ground (arith, sound.event_is_sound)) in
    (ground (arith, sound.event_is_sound, conds, whole), (whole, conds, kept))
