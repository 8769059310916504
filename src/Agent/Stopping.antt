-- ===== src/Agent/Stopping.antt =====
-- Stopping and the accounting of progress, src/coding_harness/agent/stopping.py. The signature of
-- an observation is a text that the caller hands over. A `ValueError` is `none`.
pub mod Progress
mod Examples
use ai_coding_agent_harness.Base.{
  ℕ, ◌+◌, String, Bool, true, false, not, ◌&&◌, ◌||◌, Option, none, some, ◌==◌, text_comparable,
  if◌then◌else◌, leb, Object, exact, absent, other, Comparable, comparable_by, ℕ_discrete,
}
use ai_coding_agent_harness.Base.Int.{ℤ, pos, negsuc}
use ai_coding_agent_harness.Domain.Text.{nonempty_text}

pub data StopReason : Type 0 where
  invalid_or_out_of_scope awaiting_approval completed blocked failed cancelled : StopReason
  budget_exhausted no_progress continue : StopReason

-- `_exact_nonnegative_integer`
abbrev pub exact_nonnegative_integer : Object ℤ → Option ℕ
exact_nonnegative_integer (exact (pos n)) = some n
exact_nonnegative_integer _ = none

-- `_exact_positive_integer`
abbrev pub exact_positive_integer : Object ℤ → Option ℕ
exact_positive_integer value = elim (exact_nonnegative_integer value) [
  | none ↦ none
  | some n ↦ if leb n 0 then none else some n
]

pub record StopLimits : Type 0 where
  pub max_rounds : ℕ
  pub max_tool_calls : ℕ
  pub no_progress_limit : ℕ

limits_from : Option ℕ → Option ℕ → Option ℕ → Option StopLimits
limits_from (some rounds) (some calls) (some idle) =
    some (record { max_rounds = rounds; max_tool_calls = calls; no_progress_limit = idle })
limits_from _ _ _ = none

-- `StopLimits(...)`
pub stop_limits : Object ℤ → Object ℤ → Object ℤ → Option StopLimits
unfolding limits_from
stop_limits max_rounds max_tool_calls no_progress_limit =
    limits_from (exact_positive_integer max_rounds) (exact_positive_integer max_tool_calls)
      (exact_positive_integer no_progress_limit)

-- Constructed inputs: three flags, and three counters that are not negative.
pub record StopInputs : Type 0 where
  pub invalid_or_out_of_scope : Bool
  pub awaiting_approval : Bool
  pub completed : Bool
  pub rounds : ℕ
  pub tool_calls : ℕ
  pub no_progress_count : ℕ

reason_for : StopInputs → StopLimits → StopReason
reason_for state limits =
    if state.invalid_or_out_of_scope
    then StopReason.invalid_or_out_of_scope
    else if state.awaiting_approval
    then StopReason.awaiting_approval
    else if state.completed
    then StopReason.completed
    else if leb limits.max_rounds state.rounds || leb limits.max_tool_calls state.tool_calls
    then StopReason.budget_exhausted
    else if leb limits.no_progress_limit state.no_progress_count
    then StopReason.no_progress
    else StopReason.continue

-- `StopController.evaluate`, by the reason of its decision.
pub evaluate : Object StopInputs → Object StopLimits → Option StopReason
unfolding reason_for
evaluate (exact state) (exact limits) = some (reason_for state limits)
evaluate _ _ = none

pub record ProgressState : Type 0 where
  pub acceptance_version : ℕ
  pub budget_version : ℕ
  pub approval_version : ℕ

unfoldable pub ProgressState-discrete : Discrete ProgressState
unfolding ℕ_discrete
ProgressState-discrete = hlevel ℕ_discrete

instance abbrev pub progress_comparable : Comparable ProgressState
progress_comparable = comparable_by ProgressState-discrete

pub record ProgressRecord : Type 0 where
  pub signature : String
  pub state : ProgressState
  pub count : ℕ

abbrev pub same_observation : ProgressRecord → String → ProgressState → Bool
same_observation previous signature state =
    (previous.signature == signature) && (previous.state == state)

-- The count of a new record.
count_after : Object ProgressRecord → String → ProgressState → ℕ
count_after (exact previous) signature state =
    if same_observation previous signature state then previous.count + 1 else 1
count_after _ signature state = 1

next_record : Object ProgressRecord → String → ProgressState → ProgressRecord
unfolding count_after
next_record previous signature state = record {
  signature = signature;
  state = state;
  count = count_after previous signature state;
}

-- `advance_no_progress`
pub advance_no_progress :
    Object ProgressRecord → Object String → Object ProgressState → Option ProgressRecord
unfolding next_record
advance_no_progress other signature state = none
advance_no_progress previous (exact signature) (exact state) =
    if nonempty_text signature then some (next_record previous signature state) else none
advance_no_progress previous _ _ = none
