-- ===== src/Application/Governance/Creation.antt =====
-- What a permitted creation of a budget approval guarantees.
use ai_coding_agent_harness.Base.{
  String, ◌≡◌, inl, inr, ◌≤◌, true, some, List, arith, all, All, leb, Option-cases, [], ◌∷◌,
  dec_equals_iff,
}
use ai_coding_agent_harness.Domain.Budgets.{BudgetDimension, Amounts, amount, has_amount}
use ai_coding_agent_harness.Domain.Policy.{PolicyDecisionRecord}
use ai_coding_agent_harness.Domain.ApprovalModels.{Approval, ApprovalType, ApprovalType-discrete}
use ai_coding_agent_harness.Domain.Approvals.Operations.{
  Consumption, validate_approval_creation, result_of,
}
use ai_coding_agent_harness.Application.Governance.{
  validate_creation, creation_answer, creation_is_permitted, budget_binding_is_safe, members,
  budget_pairs, mappings_are_safe, has_keys,
}

all-leb :
    (new hard : Amounts) (ds : List BudgetDimension)
    → all (λ d. leb (amount new d) (amount hard d)) ds ≡ true
    → All (λ d. amount new d ≤ amount hard d) ds
all-leb new hard [] h = tt
all-leb new hard (d ∷ ds) h = (ground arith, all-leb new hard ds (ground arith))

-- The three dictionaries of a safe extension are there, have the affected dimensions, and no new
-- limit is above the hard limit.
unfoldable pub IsSafe : Approval → List BudgetDimension → Amounts → Amounts → Amounts → Type 0
IsSafe a ds old new hard =
    (members a.affected_dimensions ≡ some ds)
    × ((budget_pairs a.old_limits ≡ some old)
        × (budget_pairs a.new_limits ≡ some new)
        × (budget_pairs a.hard_limits ≡ some hard))
    × ((all (has_amount old) ds ≡ true)
        × (all (has_amount new) ds ≡ true)
        × (all (has_amount hard) ds ≡ true))
    × All (λ d. amount new d ≤ amount hard d) ds

mappings_are_safe_cases :
    (ds : List BudgetDimension) (usage old new hard : Amounts)
    → mappings_are_safe ds (some usage) (some old) (some new) (some hard) ≡ true
    → ((all (has_amount old) ds ≡ true)
        × (all (has_amount new) ds ≡ true)
        × (all (has_amount hard) ds ≡ true))
      × All (λ d. amount new d ≤ amount hard d) ds
unfolding mappings_are_safe has_keys
mappings_are_safe_cases ds usage old new hard h =
    let bounds : all (λ d. leb (amount new d) (amount hard d)) ds ≡ true = ground arith in
    ((ground arith, ground arith, ground arith), all-leb new hard ds bounds)

pub IsSafe-cases :
    (a : Approval)
    → budget_binding_is_safe a ≡ true
    → (ds : List BudgetDimension) × (old : Amounts) × (new : Amounts) × (hard : Amounts) × IsSafe a
        ds old new hard
unfolding budget_binding_is_safe IsSafe mappings_are_safe
IsSafe-cases a h = elim (Option-cases (members a.affected_dimensions)) [
  | inl bad ↦ absurd (ground arith)
  | inr (ds, all_members) ↦ elim (Option-cases (budget_pairs a.current_usage)) [
    | inl bad ↦ absurd (ground arith)
    | inr (usage, has_usage) ↦ elim (Option-cases (budget_pairs a.old_limits)) [
      | inl bad ↦ absurd (ground arith)
      | inr (old, has_old) ↦ elim (Option-cases (budget_pairs a.new_limits)) [
        | inl bad ↦ absurd (ground arith)
        | inr (new, has_new) ↦ elim (Option-cases (budget_pairs a.hard_limits)) [
          | inl bad ↦ absurd (ground arith)
          | inr (hard, has_hard) ↦
              let (keys, bounds) = mappings_are_safe_cases ds usage old new hard (ground arith) in
              (ds, old, new, hard, (all_members, (has_old, has_new, has_hard), keys, bounds))
        ]
      ]
    ]
  ]
]

module _ (record_digest : PolicyDecisionRecord → String) where
  -- A creation that the service permits is one that the domain permits, and safe if it is about
  -- a budget.
  pub creation_is_permitted_cases :
      (a : Approval) (given : Consumption)
      → creation_is_permitted record_digest a given ≡ true
      → a.approval_type ≡ ApprovalType.budget_approval
      → budget_binding_is_safe a ≡ true
  unfolding creation_is_permitted validate_creation creation_answer validate_approval_creation
      result_of
  creation_is_permitted_cases a given h budget =
      ground
        (arith, dec_equals_iff ApprovalType-discrete a.approval_type ApprovalType.budget_approval)
