-- ===== src/Agent/Stopping/Examples.antt =====
-- A streak of three observations.
use ai_coding_agent_harness.Base.{◌≡◌, ◌↔◌, ◌<◌, refl, false, some, [], ◌∷◌, exact, List}
use ai_coding_agent_harness.Domain.Text.{nonempty_text}
use ai_coding_agent_harness.Agent.Stopping.{
  StopInputs, StopLimits, StopReason, evaluate, ProgressState, ProgressState-discrete,
}
use ai_coding_agent_harness.Agent.Stopping.Progress.{
  Observation, streak, record_after, evaluate_continues_iff, record_after-streak,
}

abbrev limits : StopLimits
limits = record { max_rounds = 10; max_tool_calls = 20; no_progress_limit = 3 }

abbrev working : StopInputs
working = record {
  invalid_or_out_of_scope = false;
  awaiting_approval = false;
  completed = false;
  rounds = 4;
  tool_calls = 4;
  no_progress_count = 2;
}

evaluate_continues_iff_example :
    (evaluate (exact working) (exact limits) ≡ some StopReason.continue) ↔ (
      (working.invalid_or_out_of_scope ≡ false)
      × (working.awaiting_approval ≡ false)
      × (working.completed ≡ false)
      × (4 < 10)
      × (4 < 20)
      × (2 < 3))
evaluate_continues_iff_example = evaluate_continues_iff working limits

abbrev state : ProgressState
state = record { acceptance_version = 1; budget_version = 1; approval_version = 0 }

abbrev history : List Observation
history = ("read a", state) ∷ ("read a", state) ∷ ("read b", state) ∷ []

streak_of_three : streak ("read a", state) (("read a", state) ∷ history) ≡ 3
unfolding streak ProgressState-discrete
streak_of_three = refl

record_after-streak_example :
    record_after (("read a", state) ∷ history)
    ≡ some (record {
      signature = "read a";
      state = state;
      count = streak ("read a", state) (("read a", state) ∷ history);
    })
unfolding nonempty_text
record_after-streak_example =
    record_after-streak ("read a", state) history (refl, (refl, (refl, (refl, tt))))
