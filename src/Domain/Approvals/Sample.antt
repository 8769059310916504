-- ===== src/Domain/Approvals/Sample.antt =====
-- A budget approval, its policy record and a consumption that it permits, for the tests.
use ai_coding_agent_harness.Domain.Approvals.PolicyBinding.{policy_binding_is_valid_iff}
use ai_coding_agent_harness.Domain.Approvals.Bindings.{binding_is_valid_iff}
use ai_coding_agent_harness.Domain.Approvals.Verdicts.{
  IsConsumable, consume_approval_cases, InWindow,
}
use ai_coding_agent_harness.Domain.Approvals.{
  binding_is_valid, type_binding, contract_is_of_task, budget_binding, pairs_are_valid,
  reason_value,
}
use ai_coding_agent_harness.Domain.Text.{is_text, has_nul}
use ai_coding_agent_harness.Base.{
  ◌≡◌, refl, arith, ◌∙◌, inl, inr, String, true, false, none, some, [], ◌∷◌, exact,
}
use ai_coding_agent_harness.Base.Int.{pos}
use ai_coding_agent_harness.Domain.Enums.{TaskState-discrete, TaskState}
use ai_coding_agent_harness.Domain.Models.{PlanVersion}
use ai_coding_agent_harness.Domain.Budgets.{BudgetDimension}
use ai_coding_agent_harness.Domain.Policy.{PolicyDecision, PolicyReason, PolicyDecisionRecord}
use ai_coding_agent_harness.Domain.ApprovalModels.{type_value, Approval, ApprovalType, BudgetItem}
use ai_coding_agent_harness.Domain.Approvals.Context.{context_of}
use ai_coding_agent_harness.Domain.Approvals.Operations.{
  is_pending, consume_approval, consumed_record, result_of, policy_binding_is_valid, record_binds,
  Consumption,
}

abbrev pub hash : String
hash = "0123456789abcdef0123456789abcdef0123456789abcdef0123456789abcdef"

-- In place of the SHA-256 of the record's JSON text.
abbrev pub record_digest : PolicyDecisionRecord → String
record_digest trusted = hash

abbrev pub plan : PlanVersion
plan = record {
  identity = "plan-1";
  task_id = "task-1";
  sequence = pos 1;
  content_digest = hash;
  display_text = "plan";
}

-- Commands may go from 5 to 8, the hard limit is 10.
abbrev pub extension : Approval
extension = record {
  identity = "approval-1";
  revision = 1;
  display_text = "more commands";
  approval_type = ApprovalType.budget_approval;
  task_id = "task-1";
  target_identity = "budget-2";
  expected_state = TaskState.awaiting_budget_approval;
  plan_version = plan;
  contract_version = none;
  request_digest = hash;
  policy_record_identity = "record-1";
  policy_record_digest = hash;
  reason_code = "APPROVAL_REQUIRED";
  created_at = 10;
  expires_at = 20;
  consumed = false;
  consumed_at = none;
  revoked = false;
  revoked_at = none;
  idempotency_key = "key-1";
  scope_digest = none;
  action_kind = none;
  action_id = none;
  normalized_paths = [];
  expected_content_digest = none;
  baseline_manifest_digest = none;
  action_payload_digest = none;
  action_reason = none;
  ignored_entries = [];
  ignored_input_mode = none;
  allowed_stages = [];
  sandbox_manifest_identity = none;
  exportable_to_llm = false;
  changeset_digest = none;
  budget_version_identity = some "budget-1";
  affected_dimensions = BudgetItem.member BudgetDimension.commands ∷ [];
  current_usage = (BudgetItem.member BudgetDimension.commands, pos 4) ∷ [];
  old_limits = (BudgetItem.member BudgetDimension.commands, pos 5) ∷ [];
  new_limits = (BudgetItem.member BudgetDimension.commands, pos 8) ∷ [];
  hard_limits = (BudgetItem.member BudgetDimension.commands, pos 10) ∷ [];
  extension_reason = some "tests";
}

abbrev pub trusted : PolicyDecisionRecord
trusted = record {
  decision = PolicyDecision.require_approval;
  reason = PolicyReason.approval_required;
  detail = none;
  error_code = none;
  action_identity = exact "budget-2";
  action_digest = exact hash;
  tool_execution_permitted = false;
  approval_can_override = true;
  effective_profile = exact "python";
  bound_task_id = exact "task-1";
  bound_target_type = exact "BUDGET_APPROVAL";
  bound_target_identity = exact "budget-2";
  bound_digest = exact hash;
  bound_expected_state = exact TaskState.awaiting_budget_approval;
  bound_idempotency_key = exact "key-1";
}

abbrev pub request : Consumption
request = record {
  expected_revision = exact (pos 1);
  presented_reference = exact (record { identity = "approval-1"; revision = 1 });
  current_context = exact (context_of extension);
  trusted_policy_record = exact trusted;
  trusted_policy_record_identity = exact "record-1";
  now = exact (pos 15);
}

pub extension_binds : binding_is_valid extension ≡ true
unfolding binding_is_valid type_binding contract_is_of_task budget_binding pairs_are_valid
    TaskState-discrete
extension_binds = refl

pub record_is_bound :
    policy_binding_is_valid record_digest extension (exact trusted) (exact "record-1") ≡ true
unfolding policy_binding_is_valid record_binds is_text has_nul reason_value type_value
    TaskState-discrete
record_is_bound = refl

pub extension-IsConsumable : IsConsumable record_digest extension request
unfolding IsConsumable InWindow
extension-IsConsumable = (
  (
    (refl, refl),
    (
      (binding_is_valid_iff extension).0 extension_binds,
      (policy_binding_is_valid_iff record_digest extension (exact trusted) (exact "record-1")).0
          record_is_bound,
    ),
  ),
  (
    (_, (refl, (refl, refl))),
    (refl, ((context_of extension, (refl, refl)), (_, (refl, (omega arith, omega arith))))),
  ),
)

-- Within its window, in its own context, the approval is consumed.
pub extension_is_consumed :
    consume_approval record_digest (exact extension) request
    ≡ some (
        result_of extension true false true "APPROVAL_CONSUMED"
          (some (pos 1))
          (some (consumed_record extension 15)))
extension_is_consumed = elim (consume_approval_cases record_digest extension request) [
  | inl (ok, t, now, same) ↦ same ∙ cc
  | inr (bad, same) ↦ absurd (bad extension-IsConsumable)
]

pub sample_pends : is_pending record_digest extension (exact trusted) (exact "record-1") ≡ true
unfolding is_pending
sample_pends = ground (arith, extension_binds, record_is_bound)
