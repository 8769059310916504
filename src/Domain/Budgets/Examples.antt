-- ===== src/Domain/Budgets/Examples.antt =====
-- Budget checks at concrete limits and costs.
use ai_coding_agent_harness.Base.{
  ℕ, ◌+◌, ◌≤◌, ◌<◌, String, ◌≡◌, ◌⊎◌, ◌↔◌, refl, true, some, [], ◌∷◌, map, exact,
}
use ai_coding_agent_harness.Base.Int.{pos}
use ai_coding_agent_harness.Domain.Budgets.{
  BudgetDimension, BudgetDimension-discrete, dimensions, DictKey, Dict, Amounts, amount, has_amount,
  normalize, covers_dimensions, closed_limits, cost_snapshot, RunLimits, BudgetVersion,
  BudgetDecision, StopEvaluation, first_reached, run_limits, decide_budget, check_before_effect,
  evaluate_stop,
}
use ai_coding_agent_harness.Domain.Budgets.Limits.{
  HasEntry, closed_limits-HasEntry, run_limits_ordered,
}
use ai_coding_agent_harness.Domain.Budgets.Check.{
  IsBelow, Verdict, check_before_effect-Verdict, check_before_effect_permits_iff,
}
use ai_coding_agent_harness.Domain.Budgets.Spending.{evaluate_stop_iff}

program : Unit {0}
unfolding normalize covers_dimensions closed_limits cost_snapshot amount has_amount first_reached
    run_limits decide_budget check_before_effect evaluate_stop BudgetDimension-discrete
program = tt

-- The same amount in every dimension.
abbrev flat : ℕ → Dict
flat n = map (λ d. (DictKey.dimension d, exact (pos n))) dimensions

abbrev level : ℕ → Amounts
level n = map (λ d. (d, n)) dimensions

abbrev limits : RunLimits
limits = record {
  soft_limits = amount (level 5);
  hard_limits = amount (level 9);
  repeated_failure_limit = 3;
  no_progress_limit = 2;
}

abbrev version : BudgetVersion
version = record {
  identity = "v1";
  task_id = "task";
  sequence = 0;
  limits = limits;
  display_text = "first";
}

-- Stands for the SHA-256 of the usage's JSON text.
abbrev digest : Amounts → String
digest usage = "digest"

two_calls : Dict
two_calls = (DictKey.dimension BudgetDimension.llm_calls, exact (pos 2)) ∷ []

over_soft :
    (check_before_effect digest
      (exact version)
      (exact "v1")
      (exact (flat 4))
      (exact two_calls)).decision
    ≡ BudgetDecision.require_approval
unfolding program two_calls
over_soft = refl

closed_limits-HasEntry_example : HasEntry (flat 4) BudgetDimension.commands 4
unfolding program
closed_limits-HasEntry_example = closed_limits-HasEntry (flat 4) BudgetDimension.commands refl

run_limits_ordered_example :
    ((d : BudgetDimension) → amount (level 5) d ≤ amount (level 9) d) × (0 < 3) × (0 < 2)
unfolding program
run_limits_ordered_example =
    run_limits_ordered (exact (flat 5)) (exact (flat 9)) (exact (pos 3)) (exact (pos 2))
      {limits = limits} refl

check_before_effect-Verdict_example :
    Verdict version
      (amount (level 4))
      ((BudgetDimension.llm_calls, 2) ∷ [])
      (check_before_effect digest (exact version) (exact "v1") (exact (flat 4)) (exact two_calls))
unfolding program two_calls
check_before_effect-Verdict_example =
    check_before_effect-Verdict digest version (exact (flat 4)) (exact two_calls) refl refl

check_before_effect_permits_iff_example :
    ((check_before_effect digest
        (exact version)
        (exact "v1")
        (exact (flat 1))
        (exact two_calls)).side_effect_permitted
      ≡ true)
    ↔ ((version.identity ≡ "v1")
        × (f : BudgetDimension → ℕ) × (c : Amounts) × (closed_limits (exact (flat 1)) ≡ some f)
        × (cost_snapshot (exact two_calls) ≡ some c)
        × IsBelow f c (amount (level 5))
        × IsBelow f c (amount (level 9)))
check_before_effect_permits_iff_example =
    check_before_effect_permits_iff digest version "v1" (exact (flat 1)) (exact two_calls)

abbrev calls_one : Dict
calls_one = (DictKey.dimension BudgetDimension.llm_calls, exact (pos 1)) ∷ []

abbrev one_call : Amounts
one_call = (BudgetDimension.llm_calls, 1) ∷ []

-- The usage after one call, as the next check is given it.
abbrev level_after : Amounts
level_after = map (λ d. (d, amount (level 2) d + amount one_call d)) dimensions

abbrev after_one_call : Dict
after_one_call = map (λ e. (DictKey.dimension e.0, exact (pos e.1))) level_after

evaluate_stop_iff_example :
    (e : StopEvaluation) × (evaluate_stop limits (exact (pos 3)) (exact (pos 0)) ≡ some e)
    × ((e.should_stop ≡ true) ↔ ((3 ≤ 3) ⊎ (2 ≤ 0)))
    × ((e.reason ≡ "REPEATED_FAILURE_LIMIT") ↔ (3 ≤ 3))
evaluate_stop_iff_example = evaluate_stop_iff limits 3 0
