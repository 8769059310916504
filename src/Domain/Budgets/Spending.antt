-- ===== src/Domain/Budgets/Spending.antt =====
-- What the checks guarantee over a sequence of effects, and when a run must stop.
use ai_coding_agent_harness.Base.{
  ◌+◌, ltb, if◌then◌else◌, nat_comparable, Object, text_equals_iff, ℕ, ◌≤◌, String, ◌≡◌, ◌⊎◌, ◌↔◌,
  refl, true, some, List, [], ◌∷◌, arith, exact,
}
use ai_coding_agent_harness.Base.Int.{pos}
use ai_coding_agent_harness.Domain.Budgets.{
  amount, Dict, closed_limits, cost_snapshot, check_before_effect, BudgetDimension, Amounts,
  RunLimits, StopEvaluation, BudgetVersion, stop_for, evaluate_stop,
}

-- What a list of costs takes of a dimension, and how many of them take something of it.
abbrev pub total : List Amounts → BudgetDimension → ℕ
total [] d = 0
total (cost ∷ costs) d = amount cost d + total costs d

abbrev pub charges : List Amounts → BudgetDimension → ℕ
charges [] d = 0
charges (cost ∷ costs) d =
    let rest = charges costs d in if ltb 0 (amount cost d) then rest + 1 else rest

module _ (usage_digest : Amounts → String) (version : BudgetVersion) where
  -- `check_before_effect` permits the cost at the usage, both as the mappings that it is given.
  abbrev pub IsPermitted : (BudgetDimension → ℕ) → Amounts → Type 0
  IsPermitted usage cost =
      (u c : Object Dict) × (closed_limits u ≡ some usage)
      × (cost_snapshot c ≡ some cost)
      × ((check_before_effect usage_digest (exact version) (exact version.identity) u
            c).side_effect_permitted
          ≡ true)

  -- Each cost was permitted at the usage that the ones before it had left.
  abbrev pub Spends : (BudgetDimension → ℕ) → List Amounts → Type 0
  Spends usage [] = Unit
  Spends usage (cost ∷ costs) = IsPermitted usage cost × Spends (λ d. usage d + amount cost d) costs

stop_for_iff :
    (limits : RunLimits) (repeated no_progress : ℕ)
    → ((stop_for limits repeated no_progress).should_stop ≡ true)
      ↔ ((limits.repeated_failure_limit ≤ repeated) ⊎ (limits.no_progress_limit ≤ no_progress))
unfolding stop_for
stop_for_iff limits repeated no_progress = (λ h. ground arith, λ h. ground arith)

stop_for_reason_iff :
    (limits : RunLimits) (repeated no_progress : ℕ)
    → ((stop_for limits repeated no_progress).reason ≡ "REPEATED_FAILURE_LIMIT")
      ↔ (limits.repeated_failure_limit ≤ repeated)
unfolding stop_for
stop_for_reason_iff limits repeated no_progress = (
  λ h. ground (
    arith,
    text_equals_iff "NO_PROGRESS_LIMIT" "REPEATED_FAILURE_LIMIT",
    text_equals_iff "CONTINUE" "REPEATED_FAILURE_LIMIT",
  ),
  λ h. ground arith,
)

-- On counters that are non-negative integers the evaluation succeeds; it says to stop exactly
-- when a counter has reached its limit, and gives the repeated failures as the reason exactly
-- when their counter has.
pub evaluate_stop_iff :
    (limits : RunLimits) (repeated no_progress : ℕ)
    → (e : StopEvaluation) × (evaluate_stop limits (exact (pos repeated)) (exact (pos no_progress))
        ≡ some e)
      × ((e.should_stop ≡ true)
          ↔ ((limits.repeated_failure_limit ≤ repeated) ⊎ (limits.no_progress_limit ≤ no_progress)))
      × ((e.reason ≡ "REPEATED_FAILURE_LIMIT") ↔ (limits.repeated_failure_limit ≤ repeated))
unfolding evaluate_stop
evaluate_stop_iff limits repeated no_progress = (
  stop_for limits repeated no_progress,
  refl,
  stop_for_iff limits repeated no_progress,
  stop_for_reason_iff limits repeated no_progress,
)
