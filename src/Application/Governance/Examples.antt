-- ===== src/Application/Governance/Examples.antt =====
-- Activating the sample extension.
use ai_coding_agent_harness.Domain.ApprovalModels.{ApprovalType-discrete}
use ai_coding_agent_harness.Domain.Approvals.Operations.{
  validate_approval_creation, result_of, consumed_record,
}
use ai_coding_agent_harness.Base.{arith, String, ℕ, ◌≡◌, ◌⊎◌, refl, true, exact}
use ai_coding_agent_harness.Domain.Budgets.{
  BudgetDimension-discrete, has_amount, amount, BudgetVersion,
}
use ai_coding_agent_harness.Domain.Approvals.Sample.{
  sample_pends, extension_is_consumed, extension, request, record_digest,
}
use ai_coding_agent_harness.Application.Governance.{
  creation_is_permitted, validate_creation, creation_answer, budget_binding_is_safe,
  mappings_are_safe, budget_pairs, pairs_into, members, has_keys, are_distinct, decided_activation,
  consumed_activation, extension_is_valid, extension_of, limits_agree, dimension_agrees, agrees,
  succession_matches, activated, Activation, activate_budget, BudgetActivationResult,
}
use ai_coding_agent_harness.Application.Governance.Activate.{
  KeepsCurrent, Activates, activate_budget_verdict,
}

abbrev version : String → ℕ → ℕ → BudgetVersion
version identity sequence soft = record {
  identity = identity;
  task_id = "task-1";
  sequence = sequence;
  limits = record {
    soft_limits = λ d. soft;
    hard_limits = λ d. 10;
    repeated_failure_limit = 3;
    no_progress_limit = 3;
  };
  display_text = "limits";
}

extension_is_permitted : creation_is_permitted record_digest extension request ≡ true
unfolding creation_is_permitted validate_creation creation_answer validate_approval_creation
    result_of budget_binding_is_safe mappings_are_safe budget_pairs pairs_into members has_keys
    are_distinct has_amount amount ApprovalType-discrete BudgetDimension-discrete
extension_is_permitted = ground (arith, sample_pends)

-- The committed transaction makes the second version active.
extension_is_activated :
    activate_budget record_digest
      (exact (version "budget-1" 1 5))
      (exact (version "budget-2" 2 8))
      (exact extension)
      request
      (exact true)
    ≡ Activation.result (activated (version "budget-2" 2 8) (consumed_record extension 15))
unfolding activate_budget decided_activation consumed_activation extension_is_valid extension_of
    limits_agree dimension_agrees agrees succession_matches budget_pairs pairs_into has_amount
    amount result_of ApprovalType-discrete BudgetDimension-discrete
extension_is_activated = simp (extension_is_permitted, extension_is_consumed)

activate_budget_verdict_example :
    (r : BudgetActivationResult) × (activate_budget record_digest
        (exact (version "budget-1" 1 5))
        (exact (version "budget-2" 2 8))
        (exact extension)
        request
        (exact true)
      ≡ Activation.result r)
    × (KeepsCurrent record_digest (version "budget-1" 1 5) extension r
        ⊎ ((true ≡ true)
            × Activates record_digest
                (version "budget-1" 1 5)
                (version "budget-2" 2 8)
                extension
                request
                r))
activate_budget_verdict_example =
    activate_budget_verdict record_digest (version "budget-1" 1 5) (version "budget-2" 2 8)
      extension request true (refl, refl)
