-- ===== src/Domain/Budgets.antt =====
-- src/coding_harness/domain/budgets.py: run limits, budget versions and the check before an
-- effect. A dictionary is an association list in insertion order; a validated mapping over all
-- dimensions is a function. The JSON text and its SHA-256 are the parameter `usage_digest`.
pub mod Limits
pub mod Check
pub mod Spending
mod Examples
use ai_coding_agent_harness.Base.{
  ℕ, ◌+◌, String, Bool, true, false, not, ◌&&◌, ◌||◌, Option, none, some, List, [], ◌∷◌, map, ◌==◌,
  ◌!=◌, Comparable, comparable_by, nat_comparable, text_comparable, if◌then◌else◌, all, any,
  nonempty, leb, ltb, Object, exact,
}
use ai_coding_agent_harness.Base.Int.{ℤ, pos, negsuc}
use ai_coding_agent_harness.Domain.Text.{is_text}

pub data BudgetDimension : Type 0 where
  agent_rounds llm_calls tool_calls modified_files changeset_bytes commands : BudgetDimension
  elapsed_seconds output_bytes : BudgetDimension

unfoldable pub BudgetDimension-discrete : Discrete BudgetDimension
BudgetDimension-discrete = hlevel

instance abbrev pub budget_dimension_eq : Comparable BudgetDimension
budget_dimension_eq = comparable_by BudgetDimension-discrete

-- `for dimension in BudgetDimension`
abbrev pub dimensions : List BudgetDimension
dimensions =
    BudgetDimension.agent_rounds ∷ BudgetDimension.llm_calls ∷ BudgetDimension.tool_calls
    ∷ BudgetDimension.modified_files ∷ BudgetDimension.changeset_bytes ∷ BudgetDimension.commands
    ∷ BudgetDimension.elapsed_seconds ∷ BudgetDimension.output_bytes ∷ []

pub data BudgetDecision : Type 0 where
  allow require_approval hard_limit_reached invalid : BudgetDecision

-- A key of a dictionary: a member of the enumeration, a plain text that is equal to the member
-- (a `StrEnum` member equals its value), or anything else.
pub data DictKey : Type 0 where
  dimension : BudgetDimension → DictKey
  text_of : BudgetDimension → DictKey
  foreign : DictKey

abbrev pub Dict : Type 0
Dict = List (DictKey × Object ℤ)

-- A validated dictionary.
abbrev pub Amounts : Type 0
Amounts = List (BudgetDimension × ℕ)

-- `_is_nonnegative_integer`, with the integer that it accepts.
abbrev pub nonnegative : Object ℤ → Option ℕ
nonnegative (exact (pos n)) = some n
nonnegative _ = none

-- `key == dimension`, by which sets compare.
abbrev pub key_equals : BudgetDimension → DictKey → Bool
key_equals d (dimension e) = d == e
key_equals d (text_of e) = d == e
key_equals d foreign = false

abbrev pub is_foreign : DictKey → Bool
is_foreign foreign = true
is_foreign _ = false

-- `frozenset(value) == frozenset(BudgetDimension)`
pub covers_dimensions : Dict → Bool
covers_dimensions value =
    all (λ e. not (is_foreign e.0)) value && all (λ d. any (λ e. key_equals d e.0) value) dimensions

-- The loop of `_closed_limits`, `_usage_snapshot` and `_cost_snapshot`.
pub normalize : Dict → Option Amounts
normalize [] = some []
normalize ((dimension d, v) ∷ rest) = elim (nonnegative v) [
  | none ↦ none
  | some n ↦ elim (normalize rest) [ none ↦ none | some m ↦ some ((d, n) ∷ m) ]
]
normalize ((text_of d, v) ∷ rest) = none
normalize ((foreign, v) ∷ rest) = none

-- `mapping.get(dimension, 0)`
unfoldable pub amount : Amounts → BudgetDimension → ℕ
amount [] d = 0
amount ((e, n) ∷ m) d = if e == d then n else amount m d

-- `dimension in mapping`
unfoldable pub has_amount : Amounts → BudgetDimension → Bool
has_amount [] d = false
has_amount ((e, n) ∷ m) d = (e == d) || has_amount m d

-- `_closed_limits`, which `_usage_snapshot` repeats.
pub closed_limits : Object Dict → Option (BudgetDimension → ℕ)
closed_limits (exact value) =
    if not (covers_dimensions value)
    then none
    else elim (normalize value) [ none ↦ none | some m ↦ some (amount m) ]
closed_limits _ = none

-- `_cost_snapshot`
pub cost_snapshot : Object Dict → Option Amounts
cost_snapshot (exact value) = if nonempty value then normalize value else none
cost_snapshot _ = none

pub record StopEvaluation : Type 0 where
  pub should_stop : Bool
  pub reason : String

pub record RunLimits : Type 0 where
  pub soft_limits : BudgetDimension → ℕ
  pub hard_limits : BudgetDimension → ℕ
  pub repeated_failure_limit : ℕ
  pub no_progress_limit : ℕ

-- The four values behind `None`, or the first failure of `RunLimits.__post_init__`.
limits_of :
    Option (BudgetDimension → ℕ)
    → Option (BudgetDimension → ℕ)
    → Option ℕ
    → Option ℕ
    → Option RunLimits
limits_of (some soft) (some hard) (some repeated) (some no_progress) =
    if any (λ d. ltb (hard d) (soft d)) dimensions
    then none
    else if (repeated == 0) || (no_progress == 0)
    then none
    else some (record {
      soft_limits = soft;
      hard_limits = hard;
      repeated_failure_limit = repeated;
      no_progress_limit = no_progress;
    })
limits_of _ _ _ _ = none

-- `RunLimits(...)`: `__post_init__`, `none` for its `ValueError`.
pub run_limits : Object Dict → Object Dict → Object ℤ → Object ℤ → Option RunLimits
unfolding limits_of
run_limits soft hard repeated no_progress =
    limits_of (closed_limits soft) (closed_limits hard) (nonnegative repeated)
      (nonnegative no_progress)

stop_for : RunLimits → ℕ → ℕ → StopEvaluation
stop_for limits repeated no_progress =
    if leb limits.repeated_failure_limit repeated
    then record { should_stop = true; reason = "REPEATED_FAILURE_LIMIT" }
    else if leb limits.no_progress_limit no_progress
    then record { should_stop = true; reason = "NO_PROGRESS_LIMIT" }
    else record { should_stop = false; reason = "CONTINUE" }

-- `RunLimits.evaluate_stop`, `none` for its `ValueError`.
pub evaluate_stop : RunLimits → Object ℤ → Object ℤ → Option StopEvaluation
unfolding stop_for
evaluate_stop limits repeated_failures no_progress_count = elim (nonnegative repeated_failures) [
  | none ↦ none
  | some repeated ↦ elim (nonnegative no_progress_count) [
    | none ↦ none
    | some no_progress ↦ some (stop_for limits repeated no_progress)
  ]
]

pub record BudgetVersion : Type 0 where
  pub identity : String
  pub task_id : String
  pub sequence : ℕ
  pub limits : RunLimits
  pub display_text : String

-- `BudgetVersion.__post_init__` on texts and an integer: `none` for its `ValueError`.
pub budget_version : String → String → ℤ → RunLimits → String → Option BudgetVersion
budget_version identity task_id (negsuc n) limits display_text = none
budget_version identity task_id (pos sequence) limits display_text =
    if is_text identity && is_text task_id && is_text display_text
    then some (record {
      identity = identity;
      task_id = task_id;
      sequence = sequence;
      limits = limits;
      display_text = display_text;
    })
    else none

pub record BudgetCheckResult : Type 0 where
  pub decision : BudgetDecision
  pub reason : String
  pub side_effect_permitted : Bool
  pub approval_required : Bool
  pub dimension : Option BudgetDimension
  pub budget_version_identity : Option String
  pub usage_snapshot_digest : Option String
  pub proposed_cost : Amounts
  pub checked_before_effect : Bool
  pub usage_before : Option ℕ
  pub proposed_usage : Option ℕ

abbrev identity_of : Object BudgetVersion → Option String
identity_of (exact v) = some v.identity
identity_of _ = none

-- `_invalid_result`
pub invalid_result : Object BudgetVersion → BudgetCheckResult
invalid_result v = record {
  decision = BudgetDecision.invalid;
  reason = "INVALID_BUDGET_INPUT";
  side_effect_permitted = false;
  approval_required = false;
  dimension = none;
  budget_version_identity = identity_of v;
  usage_snapshot_digest = none;
  proposed_cost = [];
  checked_before_effect = true;
  usage_before = none;
  proposed_usage = none;
}

-- The tuple `cost_record`, in the order of the enumeration.
pub cost_record : Amounts → List BudgetDimension → Amounts
cost_record cost [] = []
cost_record cost (d ∷ ds) =
    let rest = cost_record cost ds in if has_amount cost d then (d, amount cost d) ∷ rest else rest

-- `predicted[dimension]`
abbrev pub predicted : (BudgetDimension → ℕ) → Amounts → BudgetDimension → ℕ
predicted usage cost d = usage d + amount cost d

-- The first dimension whose prediction reaches its limit: a loop with an early return.
pub first_reached :
    (BudgetDimension → ℕ)
    → Amounts
    → (BudgetDimension → ℕ)
    → List BudgetDimension
    → Option BudgetDimension
first_reached usage cost limit [] = none
first_reached usage cost limit (d ∷ ds) =
    if leb (limit d) (predicted usage cost d) then some d else first_reached usage cost limit ds

module _ (usage_digest : Amounts → String) where
  -- `_usage_digest`: the payload goes through the dimensions in order.
  digest_of : (BudgetDimension → ℕ) → String
  digest_of usage = usage_digest (map (λ d. (d, usage d)) dimensions)

  -- The result at a dimension that reaches a limit.
  reached_result :
      BudgetDecision
      → String
      → Bool
      → BudgetDimension
      → BudgetVersion
      → (BudgetDimension → ℕ)
      → Amounts
      → BudgetCheckResult
  unfolding digest_of
  reached_result decision reason approval d version usage cost = record {
    decision = decision;
    reason = reason;
    side_effect_permitted = false;
    approval_required = approval;
    dimension = some d;
    budget_version_identity = some version.identity;
    usage_snapshot_digest = some (digest_of usage);
    proposed_cost = cost_record cost dimensions;
    checked_before_effect = true;
    usage_before = some (usage d);
    proposed_usage = some (predicted usage cost d);
  }

  allowed_result : BudgetVersion → (BudgetDimension → ℕ) → Amounts → BudgetCheckResult
  unfolding digest_of
  allowed_result version usage cost = record {
    decision = BudgetDecision.allow;
    reason = "BUDGET_AVAILABLE";
    side_effect_permitted = true;
    approval_required = false;
    dimension = none;
    budget_version_identity = some version.identity;
    usage_snapshot_digest = some (digest_of usage);
    proposed_cost = cost_record cost dimensions;
    checked_before_effect = true;
    usage_before = none;
    proposed_usage = none;
  }

  -- The part of `check_before_effect` behind its validation.
  pub decide_budget : BudgetVersion → (BudgetDimension → ℕ) → Amounts → BudgetCheckResult
  unfolding reached_result allowed_result
  decide_budget version usage cost =
      elim (first_reached usage cost version.limits.hard_limits dimensions) [
        | some d ↦
            reached_result BudgetDecision.hard_limit_reached "HARD_LIMIT_REACHED" false d version
              usage cost
        | none ↦ elim (first_reached usage cost version.limits.soft_limits dimensions) [
          | some d ↦
              reached_result BudgetDecision.require_approval "BUDGET_REAPPROVAL_REQUIRED" true d
                version usage cost
          | none ↦ allowed_result version usage cost
        ]
      ]

  pub check_snapshots :
      Object BudgetVersion
      → BudgetVersion
      → Option (BudgetDimension → ℕ)
      → Option Amounts
      → BudgetCheckResult
  check_snapshots v version (some usage) (some cost) = decide_budget version usage cost
  check_snapshots v version _ _ = invalid_result v

  -- `check_before_effect`
  pub check_before_effect :
      Object BudgetVersion → Object String → Object Dict → Object Dict → BudgetCheckResult
  unfolding check_snapshots
  check_before_effect (exact version) (exact expected) usage cost =
      if version.identity != expected
      then invalid_result (exact version)
      else check_snapshots (exact version) version (closed_limits usage) (cost_snapshot cost)
  check_before_effect v _ usage cost = invalid_result v
