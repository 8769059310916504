-- ===== src/Domain/Approvals/Operations.antt =====
-- `_policy_binding_is_valid`, `validate_approval_creation`, `consume_approval` and
-- `revoke_approval` of src/coding_harness/domain/approvals.py. The SHA-256 of a policy record's
-- JSON text is the parameter `record_digest`. An operation that raises `ValueError` returns
-- `none`.
use ai_coding_agent_harness.Base.{
  ◌||◌, ℕ, ◌+◌, String, Bool, true, false, not, ◌&&◌, Option, none, some, ◌==◌, text_comparable,
  nat_comparable, if◌then◌else◌, Object, exact, holds,
}
use ai_coding_agent_harness.Base.Int.{ℤ, pos, negsuc, int_eq, leb_ℤ, ltb_ℤ}
use ai_coding_agent_harness.Domain.Enums.{TaskState, task_state_eq}
use ai_coding_agent_harness.Domain.Policy.{PolicyDecisionRecord}
use ai_coding_agent_harness.Domain.Text.{is_text}
use ai_coding_agent_harness.Domain.ApprovalModels.{
  Approval, ApprovalResult, ApprovalExecutionContext, PresentedApprovalReference, type_value,
}
use ai_coding_agent_harness.Domain.Approvals.{
  present, binding_is_valid, reason_value, requires_approval, approval_is_required,
}
use ai_coding_agent_harness.Domain.Approvals.Context.{context_matches_record}

-- A field of a policy record equals a text.
abbrev pub is_the_text : Object String → String → Bool
is_the_text field text = holds (λ s. s == text) field

abbrev pub is_the_state : Object TaskState → TaskState → Bool
is_the_state field state = holds (λ s. s == state) field

-- The keyword arguments of `consume_approval`.
pub record Consumption : Type 0 where
  pub expected_revision : Object ℤ
  pub presented_reference : Object PresentedApprovalReference
  pub current_context : Object ApprovalExecutionContext
  pub trusted_policy_record : Object PolicyDecisionRecord
  pub trusted_policy_record_identity : Object String
  pub now : Object ℤ

-- `_result`
unfoldable pub result_of :
    Approval → Bool → Bool → Bool → String → Option ℤ → Option Approval → ApprovalResult
result_of approval permitted conflict side_effect reason expected changed = record {
  permitted = permitted;
  conflict = conflict;
  side_effect_permitted = side_effect;
  reason = reason;
  approval = elim changed [ some new ↦ new | none ↦ approval ];
  previous_revision = approval.revision;
  expected_revision = elim expected [ some n ↦ n | none ↦ pos approval.revision ];
  new_revision = elim changed [ some new ↦ some new.revision | none ↦ none ];
}

-- `expected_revision if type(expected_revision) is int else None`
abbrev pub exact_integer : Object ℤ → Option ℤ
exact_integer (exact n) = some n
exact_integer _ = none

unfoldable pub refers_to : Approval → PresentedApprovalReference → Bool
refers_to approval reference =
    (reference.identity == approval.identity) && (reference.revision == approval.revision)

unfoldable pub in_window : Approval → ℤ → Bool
in_window approval now = leb_ℤ (pos approval.created_at) now && ltb_ℤ now (pos approval.expires_at)

-- The record that a consumption at a time leaves.
unfoldable pub consumed_record : Approval → ℕ → Approval
consumed_record approval now = record approval {
  revision = approval.revision + 1;
  consumed = true;
  consumed_at = some now;
}

unfoldable pub revoked_record : Approval → ℕ → Approval
revoked_record approval now = record approval {
  revision = approval.revision + 1;
  revoked = true;
  revoked_at = some now;
}

module _ (record_digest : PolicyDecisionRecord → String) where
  -- The policy record says that an approval is required, for exactly this request.
  unfoldable pub record_binds : Approval → PolicyDecisionRecord → Bool
  record_binds approval trusted =
      (approval.policy_record_digest == record_digest trusted)
      && (requires_approval trusted.decision
          && (approval_is_required trusted.reason
              && (not trusted.tool_execution_permitted
                  && (trusted.approval_can_override
                      && (not (present trusted.error_code)
                          && ((approval.reason_code == reason_value trusted.reason)
                              && (is_the_text trusted.action_identity approval.target_identity
                                  && (is_the_text trusted.action_digest approval.request_digest
                                      && (is_the_text trusted.bound_task_id approval.task_id
                                          && (is_the_text trusted.bound_target_type
                                                (type_value approval.approval_type)
                                              && (is_the_text trusted.bound_target_identity
                                                    approval.target_identity
                                                  && (is_the_text trusted.bound_digest
                                                        approval.request_digest
                                                      && (is_the_state trusted.bound_expected_state
                                                            approval.expected_state
                                                          && is_the_text
                                                            trusted.bound_idempotency_key
                                                            approval.idempotency_key)))))))))))))

  -- `_policy_binding_is_valid`
  unfoldable pub policy_binding_is_valid :
      Approval → Object PolicyDecisionRecord → Object String → Bool
  unfolding record_binds
  policy_binding_is_valid approval (exact trusted) (exact identity) =
      if is_text identity
      then (approval.policy_record_identity == identity) && record_binds approval trusted
      else false
  policy_binding_is_valid approval (exact trusted) _ = false
  policy_binding_is_valid approval _ _ = false

  -- `permitted` of `validate_approval_creation`
  unfoldable pub is_pending : Approval → Object PolicyDecisionRecord → Object String → Bool
  is_pending approval trusted identity =
      not approval.consumed
      && (not approval.revoked
          && (binding_is_valid approval && policy_binding_is_valid approval trusted identity))

  unfoldable pub validate_approval_creation :
      Object Approval → Object PolicyDecisionRecord → Object String → Option ApprovalResult
  validate_approval_creation (exact approval) trusted identity =
      let permitted = is_pending approval trusted identity in
      some (
        result_of approval permitted false false
          (if permitted then "APPROVAL_PENDING" else "APPROVAL_REJECTED") none none)
  validate_approval_creation _ trusted identity = none

  -- `valid` of `consume_approval`
  unfoldable pub consumption_is_valid : Approval → Consumption → Bool
  unfolding refers_to in_window
  consumption_is_valid approval given =
      is_pending approval given.trusted_policy_record given.trusted_policy_record_identity
      && (holds (refers_to approval) given.presented_reference
          && (holds (λ n. n == pos approval.revision) given.expected_revision
              && (holds (λ c. context_matches_record c approval) given.current_context
                  && (not approval.consumed
                      && (not approval.revoked && holds (in_window approval) given.now)))))

  -- The record's constructor, which `replace` runs, raises at a time before zero.
  unfoldable pub consumption_result :
      Approval → Consumption → Object ℤ → Bool → Option ApprovalResult
  consumption_result approval given (exact (pos now)) true = some (
      result_of approval true false true "APPROVAL_CONSUMED" (exact_integer given.expected_revision)
        (some (consumed_record approval now)))
  consumption_result approval given (exact (negsuc now)) true = none
  consumption_result approval given _ _ = some (
      result_of approval false true false "APPROVAL_CONFLICT"
        (exact_integer given.expected_revision) none)

  unfoldable pub consume_approval : Object Approval → Consumption → Option ApprovalResult
  unfolding consumption_result
  consume_approval (exact approval) given =
      consumption_result approval given given.now (consumption_is_valid approval given)
  consume_approval _ given = none

unfoldable pub revocation_result : Approval → ℕ → ApprovalResult
revocation_result approval now =
    if approval.consumed || approval.revoked
    then result_of approval false true false "APPROVAL_CONFLICT" none none
    else result_of approval true false false "APPROVAL_REVOKED" none
        (some (revoked_record approval now))

unfoldable pub revoke_approval : Object Approval → Object ℤ → Option ApprovalResult
unfolding revocation_result
revoke_approval (exact approval) (exact (pos now)) = some (revocation_result approval now)
revoke_approval _ _ = none
