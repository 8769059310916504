-- ===== src/Agent/Stopping/Progress.antt =====
-- When the agent goes on, and that the no-progress counter measures the present streak.
use ai_coding_agent_harness.Base.{
  and_iff, same_iff, ap, ◌∙◌, ℕ, ◌+◌, ◌<◌, String, ◌≡◌, ◌↔◌, refl, Bool, true, false, Option, none,
  some, List, [], ◌∷◌, arith, All, ◌==◌, ◌&&◌, if◌then◌else◌, text_comparable, exact, absent,
  Object, Bool-cases, inl, inr,
}
use ai_coding_agent_harness.Domain.Text.{nonempty_text}
use ai_coding_agent_harness.Agent.Stopping.{
  StopInputs, StopLimits, StopReason, evaluate, reason_for, ProgressState, progress_comparable,
  ProgressRecord, advance_no_progress, next_record, count_after,
}

-- The loop goes on exactly when no flag is raised and each of the three counters is below its
-- limit.
pub evaluate_continues_iff :
    (state : StopInputs) (limits : StopLimits)
    → (evaluate (exact state) (exact limits) ≡ some StopReason.continue) ↔ (
        (state.invalid_or_out_of_scope ≡ false)
        × (state.awaiting_approval ≡ false)
        × (state.completed ≡ false)
        × (state.rounds < limits.max_rounds)
        × (state.tool_calls < limits.max_tool_calls)
        × (state.no_progress_count < limits.no_progress_limit))
unfolding evaluate reason_for
evaluate_continues_iff state limits = (λ h. ground arith, λ h. ground arith)

abbrev pub Observation : Type 0
Observation = String × ProgressState

abbrev pub same : Observation → Observation → Bool
same a b = (a.0 == b.0) && (a.1 == b.1)

-- How many of the latest observations, newest first, are the newest one.
unfoldable pub streak : Observation → List Observation → ℕ
streak o [] = 0
streak o (p ∷ older) = let more = streak o older in if same p o then more + 1 else 0

-- `None`, or the record.
abbrev pub as_previous : Option ProgressRecord → Object ProgressRecord
as_previous none = absent
as_previous (some r) = exact r

-- The record after a history of observations, newest first.
pub record_after : List Observation → Option ProgressRecord
record_after [] = none
record_after (o ∷ older) =
    advance_no_progress (as_previous (record_after older)) (exact o.0) (exact o.1)

abbrev counted : Observation → ℕ → ProgressRecord
counted o n = record { signature = o.0; state = o.1; count = n }

same-≡ : (a b : Observation) → same a b ≡ true → a ≡ b
same-≡ (s, x) (t, y) h = let (texts, states) = (and_iff (same_iff s t) (same_iff x y)).0 h in cc

same_self : (o : Observation) → same o o ≡ true
same_self o = (and_iff (same_iff o.0 o.0) (same_iff o.1 o.1)).1 (refl, refl)

advance-counted :
    (p o : Observation) (n : ℕ)
    → nonempty_text o.0 ≡ true
    → advance_no_progress (exact (counted p n)) (exact o.0) (exact o.1)
      ≡ some (counted o (if same p o then n + 1 else 1))
unfolding advance_no_progress next_record count_after
advance-counted p o n named = simp named

first_counted :
    (o : Observation)
    → nonempty_text o.0 ≡ true
    → record_after (o ∷ []) ≡ some (counted o (streak o (o ∷ [])))
unfolding record_after advance_no_progress next_record count_after streak
first_counted o named = simp (named, same_self o)

-- One more observation lengthens the streak or starts a new one.
streak_next :
    (o p : Observation) (older : List Observation)
    → (if same p o then streak p (p ∷ older) + 1 else 1) ≡ streak o (o ∷ p ∷ older)
unfolding streak
streak_next o p older = elim (Bool-cases (same p o)) [
  | inl again ↦
      let same_older = ap (λ x. streak x older) (same-≡ p o again) in
      simp (again, same_self o, same_self p, same_older)
  | inr new ↦ simp (new, same_self o)
]

-- After any history of observations with signatures the counter is the length of the streak of
-- the newest one.
pub record_after-streak :
    (o : Observation) (older : List Observation)
    → All (λ p. nonempty_text p.0 ≡ true) (o ∷ older)
    → record_after (o ∷ older)
      ≡ some (record { signature = o.0; state = o.1; count = streak o (o ∷ older) })
unfolding record_after
record_after-streak o [] (named, rest) = first_counted o named
record_after-streak o (p ∷ older) (named, rest) =
    ap (λ r. advance_no_progress (as_previous r) (exact o.0) (exact o.1))
      (record_after-streak p older rest)
    ∙ (advance-counted p o (streak p (p ∷ older)) named
        ∙ ap (λ n. some (counted o n)) (streak_next o p older))
