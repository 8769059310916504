-- ===== src/Domain/Approvals/Examples.antt =====
-- The life of the sample approval.
use ai_coding_agent_harness.Domain.Budgets.{BudgetDimension}
use ai_coding_agent_harness.Base.{
  ℕ, ◌∷◌, [], some, none, ◌⊎◌, ◌≡◌, ◌≤◌, ◌↔◌, refl, true, false, exact,
}
use ai_coding_agent_harness.Base.Int.{pos}
use ai_coding_agent_harness.Domain.Text.{
  is_digest, text_length, all_hex, optional_text_is_valid, is_text, has_nul,
}
use ai_coding_agent_harness.Domain.ApprovalModels.{
  ApprovalExecutionContext, ApprovalResult, BudgetItem, stamp_matches, optional_digest_is_valid,
  required_texts, required_digests, optional_digests, optional_texts, approval_is_valid,
}
use ai_coding_agent_harness.Domain.Approvals.Context.{
  compared, context_of, context_matches_record, context_matches_record_iff,
}
use ai_coding_agent_harness.Domain.Approvals.Operations.{consume_approval}
use ai_coding_agent_harness.Domain.Approvals.Verdicts.{IsConsumable, consume_approval_verdict}
use ai_coding_agent_harness.Domain.Approvals.Lifetime.{
  Operation, side_effects, after, answer, at_most_one_side_effect, operations_keep_valid,
}
use ai_coding_agent_harness.Domain.Approvals.Sample.{extension, request, record_digest}

-- The extension's context with a plain text in the place of the dimension.
abbrev by_text : ApprovalExecutionContext
by_text = record (context_of extension) {
  affected_dimensions = BudgetItem.named BudgetDimension.commands ∷ [];
}

context_matches_record_iff_example :
    (context_matches_record by_text extension ≡ true)
    ↔ (compared by_text ≡ compared (context_of extension))
context_matches_record_iff_example = context_matches_record_iff by_text extension

by_text_matches : context_matches_record by_text extension ≡ true
unfolding context_of
by_text_matches = (context_matches_record_iff by_text extension).1 refl

consume_approval_verdict_example :
    (IsConsumable record_digest extension request
      × (n : ℕ) × (request.now ≡ exact (pos n))
      × (consume_approval record_digest (exact extension) request
          ≡ some (record {
            permitted = true;
            conflict = false;
            side_effect_permitted = true;
            reason = "APPROVAL_CONSUMED";
            approval = record extension { revision = 2; consumed = true; consumed_at = some n };
            previous_revision = 1;
            expected_revision = pos 1;
            new_revision = some 2;
          })))
    ⊎ (¬ IsConsumable record_digest extension request
        × (r : ApprovalResult) × (consume_approval record_digest (exact extension) request ≡ some r)
        × (r.permitted ≡ false)
        × (r.conflict ≡ true)
        × (r.side_effect_permitted ≡ false)
        × (r.reason ≡ "APPROVAL_CONFLICT")
        × (r.approval ≡ extension)
        × (r.new_revision ≡ none))
consume_approval_verdict_example = consume_approval_verdict record_digest extension request

at_most_one_side_effect_example :
    side_effects record_digest
      (Operation.consume request
        ∷ Operation.revoke (exact (pos 16))
        ∷ Operation.consume request
        ∷ [])
      extension
    ≤ 1
at_most_one_side_effect_example =
    at_most_one_side_effect record_digest
      (Operation.consume request
        ∷ Operation.revoke (exact (pos 16))
        ∷ Operation.consume request
        ∷ [])
      extension

operations_keep_valid_example :
    approval_is_valid (after extension (answer record_digest (Operation.consume request) extension))
    ≡ true
unfolding approval_is_valid stamp_matches optional_digest_is_valid required_texts required_digests
    optional_digests optional_texts is_text has_nul is_digest optional_text_is_valid text_length
    all_hex
operations_keep_valid_example =
    operations_keep_valid record_digest (Operation.consume request) extension refl
