-- ===== src/Domain/Acceptance/Evaluation.antt =====
-- `AcceptanceEvaluator.evaluate` of src/coding_harness/domain/acceptance.py, and when a contract
-- is satisfied.
use ai_coding_agent_harness.Base.{
  String, ◌≡◌, refl, ◌↔◌, ◌⊎◌, Bool, true, false, not, ◌&&◌, Option, none, some, List, [], ◌∷◌, map,
  ◌==◌, text_comparable, if◌then◌else◌, nonempty, Object, exact, holds, All, arith, dec_equals_iff,
  text_equals_iff,
}
use ai_coding_agent_harness.Domain.AcceptanceModels.{
  ConditionStatus, ConditionStatus-discrete, AcceptanceCondition, AcceptanceContract,
  ConditionEvaluation, AcceptanceEvaluation, status_comparable, some_holds,
  approval_version_identity,
}

unfoldable pub evaluate_condition : AcceptanceCondition → ConditionEvaluation
evaluate_condition c = record {
  condition_identity = c.identity;
  kind = c.kind;
  required = c.required;
  status = c.status;
  satisfied = c.status == ConditionStatus.passed;
}

-- The identities of the results that are required and not satisfied.
unfoldable pub unmet_of : List ConditionEvaluation → List String
unmet_of [] = []
unmet_of (r ∷ rest) = elim (r.required && not r.satisfied) [
  | true ↦ r.condition_identity ∷ unmet_of rest
  | false ↦ unmet_of rest
]

-- The reason of an evaluation; the contract is eligible exactly with the last one.
unfoldable pub evaluation_reason : AcceptanceContract → Object String → List String → String
evaluation_reason contract expected unmet =
    if not (holds (λ e. e == contract.version.identity) expected)
    then "CONTRACT_VERSION_CONFLICT"
    else if not
        (some_holds (λ v. v == contract.version.identity) (approval_version_identity contract))
    then (if nonempty contract.history
        then "CONTRACT_REAPPROVAL_REQUIRED"
        else "CONTRACT_APPROVAL_REQUIRED")
    else if nonempty unmet
    then "REQUIRED_CONDITIONS_INCOMPLETE"
    else "ACCEPTANCE_SATISFIED"

unfoldable pub is_eligible : AcceptanceContract → Object String → List String → Bool
is_eligible contract expected unmet =
    if not (holds (λ e. e == contract.version.identity) expected)
    then false
    else if not
        (some_holds (λ v. v == contract.version.identity) (approval_version_identity contract))
    then false
    else not (nonempty unmet)

module _
    (evaluation_digest : Option String
      → Bool
      → List ConditionEvaluation
      → Bool
      → String
      → String) where
  -- `AcceptanceEvaluator.evaluate`; the recommendation of the model is deleted unread.
  unfoldable pub evaluate :
      Object AcceptanceContract → Object String → Object String → AcceptanceEvaluation
  evaluate (exact contract) expected llm_recommendation =
      let results = map evaluate_condition contract.conditions in
      let unmet = unmet_of results in
      let eligible = is_eligible contract expected unmet in
      let reason = evaluation_reason contract expected unmet in
      record {
        contract_version_identity = some contract.version.identity;
        condition_results = results;
        unmet_required_conditions = unmet;
        eligible_for_apply = eligible;
        should_apply = eligible;
        reason = reason;
        audit_digest =
            evaluation_digest (some contract.version.identity) contract.approved results eligible
              reason;
      }
  evaluate _ expected llm_recommendation = record {
    contract_version_identity = none;
    condition_results = [];
    unmet_required_conditions = [];
    eligible_for_apply = false;
    should_apply = false;
    reason = "INVALID_ACCEPTANCE_INPUT";
    audit_digest = evaluation_digest none false [] false "INVALID_ACCEPTANCE_INPUT";
  }

-- A required condition has passed.
pub IsMet : AcceptanceCondition → Type 0
IsMet c = (c.required ≡ false) ⊎ (c.status ≡ ConditionStatus.passed)

unmet_of-IsMet :
    (conditions : List AcceptanceCondition)
    → (nonempty (unmet_of (map evaluate_condition conditions)) ≡ false) ↔ All IsMet conditions
unfolding unmet_of evaluate_condition IsMet
unmet_of-IsMet [] = (λ _. tt, λ _. refl)
unmet_of-IsMet (c ∷ rest) = (
  λ h. (
    ground (arith, dec_equals_iff ConditionStatus-discrete c.status ConditionStatus.passed),
    (unmet_of-IsMet rest).0 (ground arith),
  ),
  λ (met, all_met). ground (
    arith,
    (unmet_of-IsMet rest).1 all_met,
    dec_equals_iff ConditionStatus-discrete c.status ConditionStatus.passed,
  ),
)

module _
    (evaluation_digest : Option String
      → Bool
      → List ConditionEvaluation
      → Bool
      → String
      → String) where
  -- A contract is to be applied exactly when the expected version is its own, that version is
  -- approved, and every required condition has passed, whatever the model recommends.
  pub evaluate_applies_iff :
      (contract : AcceptanceContract) (expected : String) (llm_recommendation : Object String)
      → ((evaluate evaluation_digest
            (exact contract)
            (exact expected)
            llm_recommendation).should_apply
          ≡ true)
        ↔ ((expected ≡ contract.version.identity)
            × (contract.approved ≡ true)
            × All IsMet contract.conditions)
  unfolding evaluate is_eligible
  evaluate_applies_iff contract expected llm_recommendation = (
    λ h. ground (
      arith,
      unmet_of-IsMet contract.conditions,
      text_equals_iff expected contract.version.identity,
    ),
    λ (same, approved, met). ground (
      arith,
      unmet_of-IsMet contract.conditions,
      text_equals_iff expected contract.version.identity,
      text_equals_iff contract.version.identity contract.version.identity,
    ),
  )
