-- ===== src/Domain/Approvals/Context.antt =====
-- `_context_matches_record` of src/coding_harness/domain/approvals.py, and the one context that
-- matches a approval.
use ai_coding_agent_harness.Base.{
  ap, and_iff, same_iff, String, ◌≡◌, ◌↔◌, Bool, true, Option, none, some, ◌&&◌, ◌==◌,
  text_comparable,
}
use ai_coding_agent_harness.Domain.Enums.{task_state_eq}
use ai_coding_agent_harness.Domain.Models.{ContractVersion}
use ai_coding_agent_harness.Domain.ApprovalModels.{
  item_equals, pair_equals, lists_equal, Approval, ApprovalExecutionContext, approval_type_eq,
  option_text_eq, texts_eq, entries_eq, bool_eq,
}
use ai_coding_agent_harness.Domain.Approvals.Items.{
  as_compared, compared_items, compared_pairs, item_equals_iff, pairs_equal_iff, lists_equal_iff,
}

-- `approval.contract_version.identity if approval.contract_version is not None else None`
abbrev pub contract_identity : Option ContractVersion → Option String
contract_identity none = none
contract_identity (some contract) = some contract.identity

same_subject : ApprovalExecutionContext → Approval → Bool
same_subject context approval =
    (context.approval_type == approval.approval_type)
    && ((context.task_id == approval.task_id)
        && ((context.target_identity == approval.target_identity)
            && ((context.expected_state == approval.expected_state)
                && ((context.plan_version_identity == approval.plan_version.identity)
                    && ((context.contract_version_identity
                          == contract_identity approval.contract_version)
                        && ((context.request_digest == approval.request_digest)
                            && ((context.policy_record_identity == approval.policy_record_identity)
                                && ((context.policy_record_digest == approval.policy_record_digest)
                                    && ((context.reason_code == approval.reason_code)
                                        && (context.idempotency_key
                                            == approval.idempotency_key))))))))))

same_action : ApprovalExecutionContext → Approval → Bool
same_action context approval =
    (context.scope_digest == approval.scope_digest)
    && ((context.action_kind == approval.action_kind)
        && ((context.action_id == approval.action_id)
            && ((context.normalized_paths == approval.normalized_paths)
                && ((context.expected_content_digest == approval.expected_content_digest)
                    && ((context.baseline_manifest_digest == approval.baseline_manifest_digest)
                        && ((context.action_payload_digest == approval.action_payload_digest)
                            && (context.action_reason == approval.action_reason)))))))

same_input : ApprovalExecutionContext → Approval → Bool
same_input context approval =
    (context.ignored_entries == approval.ignored_entries)
    && ((context.ignored_input_mode == approval.ignored_input_mode)
        && ((context.allowed_stages == approval.allowed_stages)
            && ((context.sandbox_manifest_identity == approval.sandbox_manifest_identity)
                && ((context.exportable_to_llm == approval.exportable_to_llm)
                    && (context.changeset_digest == approval.changeset_digest)))))

same_budget : ApprovalExecutionContext → Approval → Bool
same_budget context approval =
    (context.budget_version_identity == approval.budget_version_identity)
    && ((lists_equal item_equals context.affected_dimensions approval.affected_dimensions)
        && ((lists_equal pair_equals context.current_usage approval.current_usage)
            && ((lists_equal pair_equals context.old_limits approval.old_limits)
                && ((lists_equal pair_equals context.new_limits approval.new_limits)
                    && ((lists_equal pair_equals context.hard_limits approval.hard_limits)
                        && (context.extension_reason == approval.extension_reason))))))

-- `_context_matches_record`
pub context_matches_record : ApprovalExecutionContext → Approval → Bool
unfolding same_subject same_action same_input same_budget
context_matches_record context approval =
    same_subject context approval
    && (same_action context approval
        && (same_input context approval && same_budget context approval))

-- The context in which a record was asked for.
unfoldable pub context_of : Approval → ApprovalExecutionContext
context_of a = record {
  approval_type = a.approval_type;
  task_id = a.task_id;
  target_identity = a.target_identity;
  expected_state = a.expected_state;
  plan_version_identity = a.plan_version.identity;
  contract_version_identity = contract_identity a.contract_version;
  request_digest = a.request_digest;
  policy_record_identity = a.policy_record_identity;
  policy_record_digest = a.policy_record_digest;
  reason_code = a.reason_code;
  idempotency_key = a.idempotency_key;
  scope_digest = a.scope_digest;
  action_kind = a.action_kind;
  action_id = a.action_id;
  normalized_paths = a.normalized_paths;
  expected_content_digest = a.expected_content_digest;
  baseline_manifest_digest = a.baseline_manifest_digest;
  action_payload_digest = a.action_payload_digest;
  action_reason = a.action_reason;
  ignored_entries = a.ignored_entries;
  ignored_input_mode = a.ignored_input_mode;
  allowed_stages = a.allowed_stages;
  sandbox_manifest_identity = a.sandbox_manifest_identity;
  exportable_to_llm = a.exportable_to_llm;
  changeset_digest = a.changeset_digest;
  budget_version_identity = a.budget_version_identity;
  affected_dimensions = a.affected_dimensions;
  current_usage = a.current_usage;
  old_limits = a.old_limits;
  new_limits = a.new_limits;
  hard_limits = a.hard_limits;
  extension_reason = a.extension_reason;
}

-- A context as `==` sees it.
abbrev pub compared : ApprovalExecutionContext → ApprovalExecutionContext
compared c = record c {
  affected_dimensions = compared_items c.affected_dimensions;
  current_usage = compared_pairs c.current_usage;
  old_limits = compared_pairs c.old_limits;
  new_limits = compared_pairs c.new_limits;
  hard_limits = compared_pairs c.hard_limits;
}

module _ (c : ApprovalExecutionContext) (a : Approval) where
  subject_iff : (same_subject c a ≡ true) ↔ (
      (c.approval_type ≡ (context_of a).approval_type)
      × ((c.task_id ≡ (context_of a).task_id)
          × ((c.target_identity ≡ (context_of a).target_identity)
              × ((c.expected_state ≡ (context_of a).expected_state)
                  × ((c.plan_version_identity ≡ (context_of a).plan_version_identity)
                      × ((c.contract_version_identity ≡ (context_of a).contract_version_identity)
                          × ((c.request_digest ≡ (context_of a).request_digest)
                              × ((c.policy_record_identity ≡ (context_of a).policy_record_identity)
                                  × ((c.policy_record_digest ≡ (context_of a).policy_record_digest)
                                      × ((c.reason_code ≡ (context_of a).reason_code)
                                          × (c.idempotency_key
                                              ≡ (context_of a).idempotency_key)))))))))))
  unfolding same_subject context_of
  subject_iff = and_iff (same_iff c.approval_type (context_of a).approval_type) (
      and_iff (same_iff c.task_id (context_of a).task_id) (
        and_iff (same_iff c.target_identity (context_of a).target_identity) (
          and_iff (same_iff c.expected_state (context_of a).expected_state) (
            and_iff (same_iff c.plan_version_identity (context_of a).plan_version_identity) (
              and_iff
                (same_iff c.contract_version_identity (context_of a).contract_version_identity)
                (and_iff (same_iff c.request_digest (context_of a).request_digest) (
                  and_iff (same_iff c.policy_record_identity (context_of a).policy_record_identity)
                    (and_iff (same_iff c.policy_record_digest (context_of a).policy_record_digest) (
                      and_iff (same_iff c.reason_code (context_of a).reason_code)
                        (same_iff c.idempotency_key (context_of a).idempotency_key))))))))))

  action_iff : (same_action c a ≡ true) ↔ (
      (c.scope_digest ≡ (context_of a).scope_digest)
      × ((c.action_kind ≡ (context_of a).action_kind)
          × ((c.action_id ≡ (context_of a).action_id)
              × ((c.normalized_paths ≡ (context_of a).normalized_paths)
                  × ((c.expected_content_digest ≡ (context_of a).expected_content_digest)
                      × ((c.baseline_manifest_digest ≡ (context_of a).baseline_manifest_digest)
                          × ((c.action_payload_digest ≡ (context_of a).action_payload_digest)
                              × (c.action_reason ≡ (context_of a).action_reason))))))))
  unfolding same_action context_of
  action_iff = and_iff (same_iff c.scope_digest (context_of a).scope_digest) (
      and_iff (same_iff c.action_kind (context_of a).action_kind) (
        and_iff (same_iff c.action_id (context_of a).action_id) (
          and_iff (same_iff c.normalized_paths (context_of a).normalized_paths) (
            and_iff (same_iff c.expected_content_digest (context_of a).expected_content_digest) (
              and_iff (same_iff c.baseline_manifest_digest (context_of a).baseline_manifest_digest)
                (and_iff (same_iff c.action_payload_digest (context_of a).action_payload_digest)
                  (same_iff c.action_reason (context_of a).action_reason)))))))

  input_iff : (same_input c a ≡ true) ↔ (
      (c.ignored_entries ≡ (context_of a).ignored_entries)
      × ((c.ignored_input_mode ≡ (context_of a).ignored_input_mode)
          × ((c.allowed_stages ≡ (context_of a).allowed_stages)
              × ((c.sandbox_manifest_identity ≡ (context_of a).sandbox_manifest_identity)
                  × ((c.exportable_to_llm ≡ (context_of a).exportable_to_llm)
                      × (c.changeset_digest ≡ (context_of a).changeset_digest))))))
  unfolding same_input context_of
  input_iff = and_iff (same_iff c.ignored_entries (context_of a).ignored_entries) (
      and_iff (same_iff c.ignored_input_mode (context_of a).ignored_input_mode) (
        and_iff (same_iff c.allowed_stages (context_of a).allowed_stages) (
          and_iff (same_iff c.sandbox_manifest_identity (context_of a).sandbox_manifest_identity) (
            and_iff (same_iff c.exportable_to_llm (context_of a).exportable_to_llm)
              (same_iff c.changeset_digest (context_of a).changeset_digest)))))

  budget_iff : (same_budget c a ≡ true) ↔ (
      (c.budget_version_identity ≡ (context_of a).budget_version_identity)
      × ((compared_items c.affected_dimensions ≡ compared_items (context_of a).affected_dimensions)
          × ((compared_pairs c.current_usage ≡ compared_pairs (context_of a).current_usage)
              × ((compared_pairs c.old_limits ≡ compared_pairs (context_of a).old_limits)
                  × ((compared_pairs c.new_limits ≡ compared_pairs (context_of a).new_limits)
                      × ((compared_pairs c.hard_limits ≡ compared_pairs (context_of a).hard_limits)
                          × (c.extension_reason ≡ (context_of a).extension_reason)))))))
  unfolding same_budget context_of
  budget_iff = and_iff (same_iff c.budget_version_identity (context_of a).budget_version_identity) (
      and_iff
        (lists_equal_iff item_equals as_compared item_equals_iff c.affected_dimensions
          (context_of a).affected_dimensions)
        (and_iff (pairs_equal_iff c.current_usage (context_of a).current_usage) (
          and_iff (pairs_equal_iff c.old_limits (context_of a).old_limits) (
            and_iff (pairs_equal_iff c.new_limits (context_of a).new_limits) (
              and_iff (pairs_equal_iff c.hard_limits (context_of a).hard_limits)
                (same_iff c.extension_reason (context_of a).extension_reason))))))

-- A context matches a record exactly when it is, as `==` sees it, the context of that record, in
-- all of its fields: a plain text may stand for the member of the budget dimensions that it
-- equals, and nothing else may differ.
pub context_matches_record_iff :
    (c : ApprovalExecutionContext) (a : Approval)
    → (context_matches_record c a ≡ true) ↔ (compared c ≡ compared (context_of a))
unfolding context_matches_record context_of
context_matches_record_iff c a =
    let tests =
      and_iff (subject_iff c a)
        (and_iff (action_iff c a) (and_iff (input_iff c a) (budget_iff c a))) in
    (
      λ h. let (subject, (action, (input, budget))) = tests.0 h in cc,
      λ e. tests.1 (
        (
          ap (λ x. x.approval_type) e,
          (
            ap (λ x. x.task_id) e,
            (
              ap (λ x. x.target_identity) e,
              (
                ap (λ x. x.expected_state) e,
                (
                  ap (λ x. x.plan_version_identity) e,
                  (
                    ap (λ x. x.contract_version_identity) e,
                    (
                      ap (λ x. x.request_digest) e,
                      (
                        ap (λ x. x.policy_record_identity) e,
                        (
                          ap (λ x. x.policy_record_digest) e,
                          (ap (λ x. x.reason_code) e, ap (λ x. x.idempotency_key) e),
                        ),
                      ),
                    ),
                  ),
                ),
              ),
            ),
          ),
        ),
        (
          (
            ap (λ x. x.scope_digest) e,
            (
              ap (λ x. x.action_kind) e,
              (
                ap (λ x. x.action_id) e,
                (
                  ap (λ x. x.normalized_paths) e,
                  (
                    ap (λ x. x.expected_content_digest) e,
                    (
                      ap (λ x. x.baseline_manifest_digest) e,
                      (ap (λ x. x.action_payload_digest) e, ap (λ x. x.action_reason) e),
                    ),
                  ),
                ),
              ),
            ),
          ),
          (
            (
              ap (λ x. x.ignored_entries) e,
              (
                ap (λ x. x.ignored_input_mode) e,
                (
                  ap (λ x. x.allowed_stages) e,
                  (
                    ap (λ x. x.sandbox_manifest_identity) e,
                    (ap (λ x. x.exportable_to_llm) e, ap (λ x. x.changeset_digest) e),
                  ),
                ),
              ),
            ),
            (
              ap (λ x. x.budget_version_identity) e,
              (
                ap (λ x. x.affected_dimensions) e,
                (
                  ap (λ x. x.current_usage) e,
                  (
                    ap (λ x. x.old_limits) e,
                    (
                      ap (λ x. x.new_limits) e,
                      (ap (λ x. x.hard_limits) e, ap (λ x. x.extension_reason) e),
                    ),
                  ),
                ),
              ),
            ),
          ),
        ),
      ),
    )
