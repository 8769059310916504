-- ===== src/Domain/Budgets/Check.antt =====
-- What the check before an effect decides.
use ai_coding_agent_harness.Base.{
  ℕ, ◌+◌, ◌≤◌, ◌<◌, String, ◌≡◌, ◌↔◌, inl, inr, refl, true, false, none, some, List, [], ◌∷◌, arith,
  Object, exact, Option-cases, All, text_equals_iff,
}
use ai_coding_agent_harness.Domain.Budgets.{
  invalid_result, BudgetDimension, dimensions, Dict, Amounts, amount, closed_limits, cost_snapshot,
  BudgetVersion, BudgetDecision, BudgetCheckResult, predicted, first_reached, decide_budget,
  check_before_effect,
}

-- Every dimension stays below the limit once the cost is added.
abbrev pub IsBelow : (BudgetDimension → ℕ) → Amounts → (BudgetDimension → ℕ) → Type 0
IsBelow usage cost limit = (d : BudgetDimension) → usage d + amount cost d < limit d

module _ (usage : BudgetDimension → ℕ) (cost : Amounts) (limit : BudgetDimension → ℕ) where
  none_reached :
      (ds : List BudgetDimension)
      → first_reached usage cost limit ds ≡ none
      → All (λ d. predicted usage cost d < limit d) ds
  unfolding first_reached
  none_reached [] h = tt
  none_reached (d ∷ ds) h = ground (arith, none_reached ds)

  below_none_reached :
      (ds : List BudgetDimension)
      → IsBelow usage cost limit
      → first_reached usage cost limit ds ≡ none
  unfolding first_reached
  below_none_reached [] h = refl
  below_none_reached (d ∷ ds) h = ground (arith, h d, below_none_reached ds h)

  is_reached :
      (ds : List BudgetDimension) (d : BudgetDimension)
      → first_reached usage cost limit ds ≡ some d
      → limit d ≤ predicted usage cost d
  unfolding first_reached
  is_reached [] d h = absurd (ground arith)
  is_reached (e ∷ ds) d h = ground (arith, is_reached ds d)

  none_reached-IsBelow : first_reached usage cost limit dimensions ≡ none → IsBelow usage cost limit
  none_reached-IsBelow h BudgetDimension.agent_rounds = (none_reached dimensions h).0
  none_reached-IsBelow h d = ground (arith, none_reached dimensions h)

-- A decision and what it means: the hard limits are looked at first, then the soft ones, and the
-- dimension that is named has reached its limit.
pub data Verdict (version : BudgetVersion) (usage : BudgetDimension → ℕ) (cost : Amounts)
    (r : BudgetCheckResult) : Type 0 where
  stopped :
      (d : BudgetDimension)
      → r.decision ≡ BudgetDecision.hard_limit_reached
      → r.dimension ≡ some d
      → version.limits.hard_limits d ≤ usage d + amount cost d
      → r.usage_before ≡ some (usage d)
      → r.proposed_usage ≡ some (usage d + amount cost d)
      → r.side_effect_permitted ≡ false
      → r.approval_required ≡ false
      → Verdict version usage cost r
  asks :
      (d : BudgetDimension)
      → r.decision ≡ BudgetDecision.require_approval
      → r.dimension ≡ some d
      → IsBelow usage cost version.limits.hard_limits
      → version.limits.soft_limits d ≤ usage d + amount cost d
      → r.usage_before ≡ some (usage d)
      → r.proposed_usage ≡ some (usage d + amount cost d)
      → r.side_effect_permitted ≡ false
      → r.approval_required ≡ true
      → Verdict version usage cost r
  allows :
      r.decision ≡ BudgetDecision.allow
      → r.dimension ≡ none
      → IsBelow usage cost version.limits.hard_limits
      → IsBelow usage cost version.limits.soft_limits
      → r.side_effect_permitted ≡ true
      → r.approval_required ≡ false
      → Verdict version usage cost r

pub permitted-IsBelow :
    (version : BudgetVersion) (f : BudgetDimension → ℕ) (c : Amounts) (r : BudgetCheckResult)
    → Verdict version f c r
    → r.side_effect_permitted ≡ true
    → IsBelow f c version.limits.soft_limits × IsBelow f c version.limits.hard_limits
permitted-IsBelow version f c r (Verdict.stopped d a b l u w e g) h = absurd (ground arith)
permitted-IsBelow version f c r (Verdict.asks d a b fits l u w e g) h = absurd (ground arith)
permitted-IsBelow version f c r (Verdict.allows a b fits under e g) h = (under, fits)

below_permitted :
    (version : BudgetVersion) (f : BudgetDimension → ℕ) (c : Amounts) (r : BudgetCheckResult)
    → Verdict version f c r
    → IsBelow f c version.limits.soft_limits
    → IsBelow f c version.limits.hard_limits
    → r.side_effect_permitted ≡ true
below_permitted version f c r (Verdict.stopped d a b l u w e g) soft hard =
    absurd (omega (arith, hard d))
below_permitted version f c r (Verdict.asks d a b fits l u w e g) soft hard =
    absurd (omega (arith, soft d))
below_permitted version f c r (Verdict.allows a b fits under e g) soft hard = e

module _ (usage_digest : Amounts → String) where
  pub decide_budget-Verdict :
      (version : BudgetVersion) (usage : BudgetDimension → ℕ) (cost : Amounts)
      → Verdict version usage cost (decide_budget usage_digest version usage cost)
  unfolding decide_budget
  decide_budget-Verdict version usage cost =
      elim (Option-cases (first_reached usage cost version.limits.hard_limits dimensions)) [
        | inr (d, hard) ↦
            Verdict.stopped d (ground arith) (ground arith)
              (is_reached usage cost version.limits.hard_limits dimensions d hard) (ground arith)
              (ground arith) (ground arith) (ground arith)
        | inl below ↦
            let fits = none_reached-IsBelow usage cost version.limits.hard_limits below in
            elim (Option-cases (first_reached usage cost version.limits.soft_limits dimensions)) [
              | inr (d, soft) ↦
                  Verdict.asks d (ground arith) (ground arith) fits
                    (is_reached usage cost version.limits.soft_limits dimensions d soft)
                    (ground arith) (ground arith) (ground arith) (ground arith)
              | inl under ↦
                  Verdict.allows (ground arith) (ground arith) fits
                    (none_reached-IsBelow usage cost version.limits.soft_limits under)
                    (ground arith) (ground arith)
            ]
      ]

  -- For a current version and well-formed usage and cost, the check stops at a dimension that
  -- reaches its hard limit, else asks for approval at one that reaches its soft limit, else
  -- allows the effect with every dimension below both; it permits the effect in the last case
  -- only, and asks for approval in the middle one only.
  pub check_before_effect-Verdict :
      (version : BudgetVersion) (usage cost : Object Dict) {f : BudgetDimension → ℕ} {c : Amounts}
      → closed_limits usage ≡ some f
      → cost_snapshot cost ≡ some c
      → Verdict version f c
          (check_before_effect usage_digest (exact version) (exact version.identity) usage cost)
  unfolding check_before_effect
  check_before_effect-Verdict version usage cost {f} {c} hu hc =
      let same : check_before_effect usage_digest (exact version) (exact version.identity) usage
            cost
          ≡ decide_budget usage_digest version f c =
        ground (arith, text_equals_iff version.identity version.identity) in
      rw same (decide_budget-Verdict version f c)

  permits :
      (version : BudgetVersion) (expected : String) (usage cost : Object Dict)
      → (check_before_effect usage_digest
          (exact version)
          (exact expected)
          usage
          cost).side_effect_permitted
        ≡ true
      → (version.identity ≡ expected)
        × (f : BudgetDimension → ℕ) × (c : Amounts) × (closed_limits usage ≡ some f)
        × (cost_snapshot cost ≡ some c)
        × IsBelow f c version.limits.soft_limits
        × IsBelow f c version.limits.hard_limits
  unfolding check_before_effect invalid_result
  permits version expected usage cost h =
      let same : version.identity ≡ expected =
        ground (arith, text_equals_iff version.identity expected) in
      elim (Option-cases (closed_limits usage)) [
        | inl bad ↦ absurd (ground arith)
        | inr (f, hu) ↦ elim (Option-cases (cost_snapshot cost)) [
          | inl bad ↦ absurd (ground arith)
          | inr (c, hc) ↦
              let decided : (decide_budget usage_digest version f c).side_effect_permitted ≡ true =
                ground arith in
              let (soft, hard) =
                permitted-IsBelow version f c _ (decide_budget-Verdict version f c) decided in
              (same, f, c, hu, hc, soft, hard)
        ]
      ]

  -- An effect is permitted exactly for the current version's identity, a well-formed usage and
  -- cost, and a cost that leaves every dimension below its soft and its hard limit.
  pub check_before_effect_permits_iff :
      (version : BudgetVersion) (expected : String) (usage cost : Object Dict)
      → ((check_before_effect usage_digest
            (exact version)
            (exact expected)
            usage
            cost).side_effect_permitted
          ≡ true)
        ↔ ((version.identity ≡ expected)
            × (f : BudgetDimension → ℕ) × (c : Amounts) × (closed_limits usage ≡ some f)
            × (cost_snapshot cost ≡ some c)
            × IsBelow f c version.limits.soft_limits
            × IsBelow f c version.limits.hard_limits)
  check_before_effect_permits_iff version expected usage cost = (
    λ h. permits version expected usage cost h,
    λ (same, f, c, hu, hc, soft, hard). rw (← same) (
        below_permitted version f c _ (check_before_effect-Verdict version usage cost hu hc) soft
          hard),
  )
