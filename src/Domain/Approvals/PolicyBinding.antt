-- ===== src/Domain/Approvals/PolicyBinding.antt =====
-- What the policy record behind an approval must say, field by field.
use ai_coding_agent_harness.Base.{
  String, ◌≡◌, ◌↔◌, true, false, none, arith, and_iff, not_iff, true_iff, same_iff, Object, exact,
  absent, other, ◌==◌, text_comparable,
}
use ai_coding_agent_harness.Domain.Enums.{TaskState, task_state_eq}
use ai_coding_agent_harness.Domain.Text.{is_text}
use ai_coding_agent_harness.Domain.Policy.{PolicyDecision, PolicyReason, PolicyDecisionRecord}
use ai_coding_agent_harness.Domain.ApprovalModels.{Approval, type_value}
use ai_coding_agent_harness.Domain.Approvals.{reason_value, requires_approval, approval_is_required}
use ai_coding_agent_harness.Domain.Approvals.Fields.{missing_iff, holds_the_iff}
use ai_coding_agent_harness.Domain.Approvals.Operations.{
  is_the_text, is_the_state, record_binds, policy_binding_is_valid,
}

is_the_text_iff : (o : Object String) (t : String) → (is_the_text o t ≡ true) ↔ (o ≡ exact t)
is_the_text_iff o t = holds_the_iff (λ s. s == t) o t (λ s. same_iff s t)

is_the_state_iff :
    (o : Object TaskState) (t : TaskState) → (is_the_state o t ≡ true) ↔ (o ≡ exact t)
is_the_state_iff o t = holds_the_iff (λ s. s == t) o t (λ s. same_iff s t)

requires_iff :
    (d : PolicyDecision) → (requires_approval d ≡ true) ↔ (d ≡ PolicyDecision.require_approval)
requires_iff d = (λ h. ground arith, λ h. ground arith)

required_iff :
    (r : PolicyReason) → (approval_is_required r ≡ true) ↔ (r ≡ PolicyReason.approval_required)
required_iff r = (λ h. ground arith, λ h. ground arith)

module _ (record_digest : PolicyDecisionRecord → String) where
  -- The record asks for an approval and nothing else, and it is about this request: its digest,
  -- the reason, the action and the six bound fields are the approval's.
  unfoldable pub IsAskedFor : Approval → PolicyDecisionRecord → Type 0
  IsAskedFor a trusted =
      (a.policy_record_digest ≡ record_digest trusted)
      × ((trusted.decision ≡ PolicyDecision.require_approval)
          × ((trusted.reason ≡ PolicyReason.approval_required)
              × ((trusted.tool_execution_permitted ≡ false)
                  × ((trusted.approval_can_override ≡ true)
                      × ((trusted.error_code ≡ none)
                          × ((a.reason_code ≡ reason_value trusted.reason)
                              × ((trusted.action_identity ≡ exact a.target_identity)
                                  × ((trusted.action_digest ≡ exact a.request_digest)
                                      × ((trusted.bound_task_id ≡ exact a.task_id)
                                          × ((trusted.bound_target_type
                                                ≡ exact (type_value a.approval_type))
                                              × ((trusted.bound_target_identity
                                                    ≡ exact a.target_identity)
                                                  × ((trusted.bound_digest ≡ exact a.request_digest)
                                                      × ((trusted.bound_expected_state
                                                            ≡ exact a.expected_state)
                                                          × (trusted.bound_idempotency_key
                                                            ≡ exact a.idempotency_key))))))))))))))

  asked_iff :
      (a : Approval) (trusted : PolicyDecisionRecord)
      → (record_binds record_digest a trusted ≡ true) ↔ IsAskedFor a trusted
  unfolding record_binds IsAskedFor
  asked_iff a trusted = and_iff (same_iff a.policy_record_digest (record_digest trusted)) (
      and_iff (requires_iff trusted.decision) (
        and_iff (required_iff trusted.reason) (
          and_iff (not_iff trusted.tool_execution_permitted) (
            and_iff (true_iff trusted.approval_can_override) (
              and_iff (missing_iff trusted.error_code) (
                and_iff (same_iff a.reason_code (reason_value trusted.reason)) (
                  and_iff (is_the_text_iff trusted.action_identity a.target_identity) (
                    and_iff (is_the_text_iff trusted.action_digest a.request_digest) (
                      and_iff (is_the_text_iff trusted.bound_task_id a.task_id) (
                        and_iff
                          (is_the_text_iff trusted.bound_target_type (type_value a.approval_type))
                          (and_iff (is_the_text_iff trusted.bound_target_identity a.target_identity)
                            (and_iff (is_the_text_iff trusted.bound_digest a.request_digest) (
                              and_iff
                                (is_the_state_iff trusted.bound_expected_state a.expected_state)
                                (is_the_text_iff trusted.bound_idempotency_key
                                  a.idempotency_key))))))))))))))

  -- The policy record is one, under the identity that the approval names.
  unfoldable pub IsBehind : Approval → Object PolicyDecisionRecord → Object String → Type 0
  IsBehind a (exact trusted) (exact identity) =
      (is_text identity ≡ true) × ((a.policy_record_identity ≡ identity) × IsAskedFor a trusted)
  IsBehind a (exact trusted) absent = ⊥
  IsBehind a (exact trusted) other = ⊥
  IsBehind a absent identity = ⊥
  IsBehind a other identity = ⊥

  -- `_policy_binding_is_valid` asks for the fields that are written out.
  pub policy_binding_is_valid_iff :
      (a : Approval) (trusted : Object PolicyDecisionRecord) (identity : Object String)
      → (policy_binding_is_valid record_digest a trusted identity ≡ true)
        ↔ IsBehind a trusted identity
  unfolding policy_binding_is_valid IsBehind
  policy_binding_is_valid_iff a (exact trusted) (exact identity) =
      let tests =
        and_iff (true_iff (is_text identity))
          (and_iff (same_iff a.policy_record_identity identity) (asked_iff a trusted)) in
      (λ h. tests.0 (ground arith), λ h. let all_true = tests.1 h in ground arith)
  policy_binding_is_valid_iff a (exact trusted) absent = (λ h. absurd (ground arith), λ h. absurd h)
  policy_binding_is_valid_iff a (exact trusted) other = (λ h. absurd (ground arith), λ h. absurd h)
  policy_binding_is_valid_iff a absent identity = (λ h. absurd (ground arith), λ h. absurd h)
  policy_binding_is_valid_iff a other identity = (λ h. absurd (ground arith), λ h. absurd h)
