-- ===== src/Domain/Approvals.antt =====
-- The bindings of an approval that src/coding_harness/domain/approvals.py checks, each type's
-- own; the child modules hold the bindings to a policy record and a context, and the operations.
pub mod Context
pub mod Operations
pub mod Items
pub mod Fields
pub mod Bindings
pub mod PolicyBinding
pub mod Verdicts
pub mod Lifetime
pub mod Sample
mod Examples
use ai_coding_agent_harness.Base.{
  String, Bool, true, false, not, ◌&&◌, ◌||◌, Option, none, some, List, map, ◌==◌, ◌!=◌,
  text_comparable, nat_comparable, if◌then◌else◌, all, any, nonempty, length,
}
use ai_coding_agent_harness.Base.Int.{pos, int_eq, leb_ℤ}
use ai_coding_agent_harness.Domain.Enums.{TaskState, task_state_eq}
use ai_coding_agent_harness.Domain.Models.{ContractVersion}
use ai_coding_agent_harness.Domain.Policy.{PolicyDecision, PolicyReason}
use ai_coding_agent_harness.Domain.Text.{is_text, is_digest}
use ai_coding_agent_harness.Domain.ApprovalModels.{
  ApprovalType, IgnoredEntry, BudgetPairs, Approval, approval_type_eq, option_text_eq, texts_eq,
  entries_eq, items_eq, pairs_eq, bool_eq,
}

-- `option is not None`
abbrev pub present {ℓ} : {A : Type ℓ} → Option A → Bool
present none = false
present (some _) = true

-- An optional text equals a text.
abbrev pub is_some_text : Option String → String → Bool
is_some_text none t = false
is_some_text (some s) t = s == t

-- `_ACTION_APPROVAL_KINDS`
abbrev pub action_approval_kinds : Option String → Bool
action_approval_kinds kind =
    is_some_text kind "delete_file" || is_some_text kind "include_ignored_input"

-- `_pairs_are_valid`
pub pairs_are_valid : BudgetPairs → Bool
pairs_are_valid value = nonempty value && all (λ item. leb_ℤ (pos 0) item.1) value

entry_is_valid : IgnoredEntry → Bool
entry_is_valid item =
    is_text item.0 && (is_text item.1 && (leb_ℤ (pos 0) item.2 && is_digest item.3))

-- `_ignored_entries_are_valid`
pub ignored_entries_are_valid : List IgnoredEntry → Bool
unfolding entry_is_valid
ignored_entries_are_valid value = nonempty value && all entry_is_valid value

contract_is_of_task : Approval → Option ContractVersion → Bool
contract_is_of_task approval none = true
contract_is_of_task approval (some contract) = contract.task_id == approval.task_id

-- The branches of `_binding_is_valid`, one for each type of approval.
plan_binding : Approval → Bool
plan_binding approval =
    (approval.expected_state == TaskState.awaiting_plan_approval)
    && ((approval.target_identity == approval.plan_version.identity)
        && (present approval.contract_version && present approval.scope_digest))

delete_binding : Approval → Bool
delete_binding approval =
    present approval.expected_content_digest
    && (present approval.baseline_manifest_digest && present approval.action_reason)

ignored_binding : Approval → Bool
ignored_binding approval =
    ignored_entries_are_valid approval.ignored_entries
    && ((map (λ item. item.0) approval.ignored_entries == approval.normalized_paths)
        && ((is_some_text approval.ignored_input_mode "read_only_input"
              || is_some_text approval.ignored_input_mode "writable_ephemeral")
            && ((nonempty approval.allowed_stages && all is_text approval.allowed_stages)
                && (present approval.sandbox_manifest_identity && not approval.exportable_to_llm))))

action_binding : Approval → Bool
unfolding delete_binding ignored_binding
action_binding approval =
    if (approval.expected_state != TaskState.awaiting_action_approval)
      || (present approval.contract_version
          || (not (action_approval_kinds approval.action_kind)
              || (not (is_some_text approval.action_id approval.target_identity)
                  || (not (is_some_text approval.action_payload_digest approval.request_digest)
                      || ((length approval.normalized_paths != 1)
                          || any (λ path. not (is_text path)) approval.normalized_paths)))))
    then false
    else if is_some_text approval.action_kind "delete_file"
    then delete_binding approval
    else ignored_binding approval

budget_binding : Approval → Bool
budget_binding approval =
    (approval.expected_state == TaskState.awaiting_budget_approval)
    && (not (present approval.contract_version)
        && (present approval.budget_version_identity
            && (nonempty approval.affected_dimensions
                && (pairs_are_valid approval.current_usage
                    && (pairs_are_valid approval.old_limits
                        && (pairs_are_valid approval.new_limits
                            && (pairs_are_valid approval.hard_limits
                                && present approval.extension_reason)))))))

apply_binding : Approval → Bool
apply_binding approval =
    (approval.expected_state == TaskState.ready_to_apply)
    && (present approval.contract_version
        && (present approval.changeset_digest
            && (present approval.baseline_manifest_digest
                && is_some_text approval.changeset_digest approval.target_identity)))

type_binding : ApprovalType → Approval → Bool
unfolding plan_binding action_binding budget_binding apply_binding
type_binding ApprovalType.plan_approval approval = plan_binding approval
type_binding ApprovalType.action_approval approval = action_binding approval
type_binding ApprovalType.budget_approval approval = budget_binding approval
type_binding ApprovalType.apply_approval approval = apply_binding approval

-- `_binding_is_valid`
pub binding_is_valid : Approval → Bool
unfolding type_binding contract_is_of_task
binding_is_valid approval =
    if approval.plan_version.task_id != approval.task_id
    then false
    else if not (contract_is_of_task approval approval.contract_version)
    then false
    else type_binding approval.approval_type approval

-- The value of a policy reason.
unfoldable pub reason_value : PolicyReason → String
reason_value PolicyReason.allowed = "ALLOWED"
reason_value PolicyReason.approval_required = "APPROVAL_REQUIRED"
reason_value PolicyReason.denied_capability = "DENIED_CAPABILITY"
reason_value PolicyReason.blocked_policy_error = "BLOCKED_POLICY_ERROR"
reason_value PolicyReason.blocked_unsupported_capability = "BLOCKED_UNSUPPORTED_CAPABILITY"

abbrev pub requires_approval : PolicyDecision → Bool
requires_approval PolicyDecision.require_approval = true
requires_approval _ = false

abbrev pub approval_is_required : PolicyReason → Bool
approval_is_required PolicyReason.approval_required = true
approval_is_required _ = false
