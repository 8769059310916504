-- ===== src/Application/Governance.antt =====
-- src/coding_harness/application/governance.py: `ApprovalService`. A dictionary of amounts is an
-- association list. A lookup that would raise `KeyError` is an outcome of its own.
pub mod Extension
pub mod Creation
pub mod Activate
mod Examples
use ai_coding_agent_harness.Base.{
  ◌||◌, ℕ, String, Bool, true, false, not, ◌&&◌, Option, none, some, List, [], ◌∷◌, ◌==◌,
  text_comparable, nat_comparable, if◌then◌else◌, all, nonempty, ltb, leb, Object, exact, is_exact,
}
use ai_coding_agent_harness.Base.Int.{ℤ, pos, negsuc}
use ai_coding_agent_harness.Domain.Budgets.{
  BudgetDimension, budget_dimension_eq, BudgetVersion, Amounts, amount, has_amount, dimensions,
}
use ai_coding_agent_harness.Domain.Policy.{PolicyDecisionRecord}
use ai_coding_agent_harness.Domain.ApprovalModels.{
  Approval, ApprovalResult, ApprovalType, approval_type_eq, BudgetItem, BudgetPairs,
}
use ai_coding_agent_harness.Domain.Approvals.{is_some_text}
use ai_coding_agent_harness.Domain.Approvals.Operations.{
  revoke_approval, Consumption, exact_integer, validate_approval_creation, consume_approval,
  result_of,
}

pub record BudgetActivationResult : Type 0 where
  pub active_version : BudgetVersion
  pub changed : Bool
  pub approval : Approval
  pub conflict : Bool
  pub reason : String

-- What `activate_budget` comes to: `ValueError`, `KeyError` or a result.
pub data Activation : Type 0 where
  value_error key_error : Activation
  result : BudgetActivationResult → Activation

-- The loop of `_budget_pairs`, with the dictionary so far.
unfoldable pub pairs_into : Amounts → BudgetPairs → Option Amounts
pairs_into normalized [] = some normalized
pairs_into normalized ((BudgetItem.member d, pos n) ∷ rest) = elim (has_amount normalized d) [
  | true ↦ none
  | false ↦ pairs_into ((d, n) ∷ normalized) rest
]
pairs_into normalized ((BudgetItem.member d, negsuc n) ∷ rest) = none
pairs_into normalized ((BudgetItem.named d, v) ∷ rest) = none
pairs_into normalized ((BudgetItem.foreign k, v) ∷ rest) = none

-- `_budget_pairs`
pub budget_pairs : BudgetPairs → Option Amounts
budget_pairs value = elim (pairs_into [] value) [
  | none ↦ none
  | some normalized ↦ if nonempty normalized then some normalized else none
]

-- The items, if all are members of `BudgetDimension`.
pub members : List BudgetItem → Option (List BudgetDimension)
members [] = some []
members (BudgetItem.member d ∷ rest) = elim (members rest) [ none ↦ none | some ds ↦ some (d ∷ ds) ]
members (BudgetItem.named d ∷ rest) = none
members (BudgetItem.foreign k ∷ rest) = none

abbrev pub contains : List BudgetDimension → BudgetDimension → Bool
contains [] d = false
contains (e ∷ ds) d = (e == d) || contains ds d

-- `len(set(dimensions)) == len(dimensions)`
pub are_distinct : List BudgetDimension → Bool
are_distinct [] = true
are_distinct (d ∷ ds) = not (contains ds d) && are_distinct ds

-- `set(mapping) == set(dimensions)`
pub has_keys : List BudgetDimension → Amounts → Bool
has_keys ds mapping = all (λ e. contains ds e.0) mapping && all (has_amount mapping) ds

mappings_are_safe :
    List BudgetDimension → Option Amounts → Option Amounts → Option Amounts → Option Amounts → Bool
mappings_are_safe ds (some usage) (some old) (some new) (some hard) =
    (has_keys ds usage && (has_keys ds old && (has_keys ds new && has_keys ds hard)))
    && all (λ d. leb (amount new d) (amount hard d)) ds
mappings_are_safe ds _ _ _ _ = false

-- `_budget_binding_is_safe`
pub budget_binding_is_safe : Approval → Bool
unfolding mappings_are_safe
budget_binding_is_safe approval = elim (members approval.affected_dimensions) [
  | none ↦ false
  | some ds ↦
      nonempty ds
      && (are_distinct ds
          && mappings_are_safe ds (budget_pairs approval.current_usage)
              (budget_pairs approval.old_limits) (budget_pairs approval.new_limits)
              (budget_pairs approval.hard_limits))
]

-- `valid and mapping[dimension] == value`; `none` for `KeyError`.
pub agrees : Bool → Amounts → BudgetDimension → ℕ → Option Bool
agrees false mapping d n = some false
agrees true mapping d n = if has_amount mapping d then some (amount mapping d == n) else none

-- The three tests of one dimension.
pub dimension_agrees :
    BudgetVersion
    → BudgetVersion
    → Amounts
    → Amounts
    → Amounts
    → BudgetDimension
    → Bool
    → Option Bool
unfolding agrees
dimension_agrees current proposed old new hard d valid =
    elim (agrees valid old d (current.limits.soft_limits d)) [
      | none ↦ none
      | some valid ↦ elim (agrees valid new d (proposed.limits.soft_limits d)) [
        | none ↦ none
        | some valid ↦ agrees valid hard d (current.limits.hard_limits d)
      ]
    ]

-- The loop over the affected dimensions; a text that equals a member finds the member's entry.
pub limits_agree :
    BudgetVersion
    → BudgetVersion
    → Amounts
    → Amounts
    → Amounts
    → List BudgetItem
    → Bool
    → Option Bool
limits_agree current proposed old new hard [] valid = some valid
limits_agree current proposed old new hard (BudgetItem.foreign k ∷ rest) true = none
limits_agree current proposed old new hard (BudgetItem.foreign k ∷ rest) false =
    limits_agree current proposed old new hard rest false
limits_agree current proposed old new hard (BudgetItem.named d ∷ rest) valid =
    elim (dimension_agrees current proposed old new hard d valid) [
      | none ↦ none
      | some valid ↦ limits_agree current proposed old new hard rest valid
    ]
limits_agree current proposed old new hard (BudgetItem.member d ∷ rest) valid =
    elim (dimension_agrees current proposed old new hard d valid) [
      | none ↦ none
      | some valid ↦ limits_agree current proposed old new hard rest valid
    ]

-- The tests before the loop.
pub succession_matches : BudgetVersion → BudgetVersion → Approval → Bool
succession_matches current proposed approval =
    (approval.approval_type == ApprovalType.budget_approval)
    && (((current.task_id == proposed.task_id) && (proposed.task_id == approval.task_id))
        && (ltb current.sequence proposed.sequence
            && ((approval.target_identity == proposed.identity)
                && (is_some_text approval.budget_version_identity current.identity
                    && all (λ d. current.limits.hard_limits d == proposed.limits.hard_limits d)
                        dimensions))))

extension_of :
    BudgetVersion
    → BudgetVersion
    → Approval
    → Option Amounts
    → Option Amounts
    → Option Amounts
    → Bool
    → Option Bool
extension_of current proposed approval (some old) (some new) (some hard) valid =
    limits_agree current proposed old new hard approval.affected_dimensions valid
extension_of current proposed approval _ _ _ valid = some false

-- The loop, if the three dictionaries are there.
pub extension_is_valid : BudgetVersion → BudgetVersion → Approval → Bool → Option Bool
unfolding extension_of
extension_is_valid current proposed approval valid =
    extension_of current proposed approval (budget_pairs approval.old_limits)
      (budget_pairs approval.new_limits) (budget_pairs approval.hard_limits) valid

-- A result that leaves the current version active.
unfoldable pub kept : BudgetVersion → Approval → Bool → String → BudgetActivationResult
kept current approval conflict reason = record {
  active_version = current;
  changed = false;
  approval = approval;
  conflict = conflict;
  reason = reason;
}

-- The result that makes the proposed version active.
unfoldable pub activated : BudgetVersion → Approval → BudgetActivationResult
activated proposed consumed = record {
  active_version = proposed;
  changed = true;
  approval = consumed;
  conflict = false;
  reason = "BUDGET_VERSION_COMMITTED";
}

-- `_conflict`
pub conflict_of : Approval → Object ℤ → ApprovalResult
conflict_of approval expected =
    result_of approval false true false "APPROVAL_CONFLICT" (exact_integer expected) none

-- `ApprovalService.revoke`
pub revoke : Object Approval → Object ℤ → Option ApprovalResult
revoke approval revoked_at = revoke_approval approval revoked_at

module _ (record_digest : PolicyDecisionRecord → String) where
  creation_answer : Approval → Option ApprovalResult → Option ApprovalResult
  creation_answer approval none = none
  creation_answer approval (some answer) =
      if not answer.permitted
      then some answer
      else if (approval.approval_type == ApprovalType.budget_approval)
          && not (budget_binding_is_safe approval)
      then some (result_of approval false false false "BUDGET_APPROVAL_REJECTED" none none)
      else some answer

  -- `ApprovalService.validate_creation`
  pub validate_creation :
      Object Approval → Object PolicyDecisionRecord → Object String → Option ApprovalResult
  unfolding creation_answer
  validate_creation (exact approval) trusted identity =
      creation_answer approval
        (validate_approval_creation record_digest (exact approval) trusted identity)
  validate_creation _ trusted identity = none

  -- `.permitted` of its answer
  pub creation_is_permitted : Approval → Consumption → Bool
  creation_is_permitted approval given =
      elim (validate_creation (exact approval) given.trusted_policy_record
        given.trusted_policy_record_identity) [ none ↦ false | some answer ↦ answer.permitted ]

  -- `ApprovalService.consume`
  pub consume : Object Approval → Consumption → Option ApprovalResult
  consume (exact approval) given =
      if not (creation_is_permitted approval given)
      then some (conflict_of approval given.expected_revision)
      else consume_approval record_digest (exact approval) given
  consume _ given = none

  consumed_activation :
      BudgetVersion → BudgetVersion → Approval → Option ApprovalResult → Activation
  consumed_activation current proposed approval none = value_error
  consumed_activation current proposed approval (some consumed) =
      if not consumed.permitted
      then result (kept current approval true "BUDGET_APPROVAL_CONFLICT")
      else result (activated proposed consumed.approval)

  -- What follows the tests.
  decided_activation :
      BudgetVersion → BudgetVersion → Approval → Consumption → Bool → Option Bool → Activation
  unfolding consumed_activation
  decided_activation current proposed approval given committed none = key_error
  decided_activation current proposed approval given committed (some valid) =
      if not valid
      then result (kept current approval true "BUDGET_APPROVAL_CONFLICT")
      else if not committed
      then result (kept current approval false "BUDGET_VERSION_PENDING")
      else if not (is_exact given.now)
      then result (kept current approval true "BUDGET_APPROVAL_CONFLICT")
      else consumed_activation current proposed approval
          (consume_approval record_digest (exact approval) given)

  -- `ApprovalService.activate_budget`; `committed_at` is the `now` of the consumption.
  pub activate_budget :
      Object BudgetVersion
      → Object BudgetVersion
      → Object Approval
      → Consumption
      → Object Bool
      → Activation
  unfolding decided_activation
  activate_budget (exact current) (exact proposed) (exact approval) given (exact committed) =
      if not (is_exact given.presented_reference && is_exact given.current_context)
      then value_error
      else decided_activation current proposed approval given committed (
          extension_is_valid current proposed approval (
            creation_is_permitted approval given
            && (is_exact given.expected_revision && succession_matches current proposed approval)))
  activate_budget _ _ _ given _ = value_error
