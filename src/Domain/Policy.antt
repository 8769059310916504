-- ===== src/Domain/Policy.antt =====
-- `PolicyEngine` of src/coding_harness/domain/policy.py. A field that the code tests with
-- `type(...) is` is an `Object`. Nothing in `_decide` raises on these values, so the handler of
-- `decide` for an exception has no case here.
pub mod Sets
pub mod Valid
pub mod Decisions
mod Examples
use ai_coding_agent_harness.Base.{
  String, Bool, true, false, not, Option, none, some, List, [], ◌∷◌, ◌==◌, text_comparable,
  nat_comparable, if◌then◌else◌, any, Object, exact, absent, other, is_exact, holds,
}
use ai_coding_agent_harness.Domain.Enums.{TaskState, task_state_eq}
use ai_coding_agent_harness.Domain.Text.{is_digest, nonempty_text}
use ai_coding_agent_harness.Domain.Actions.{
  PolicyActionKind, action_kind, allow_actions, approval_actions, unsupported_actions,
  hard_deny_actions,
}

pub data PolicyReason : Type 0 where
  allowed approval_required denied_capability blocked_policy_error : PolicyReason
  blocked_unsupported_capability : PolicyReason

pub data PolicyErrorCode : Type 0 where
  invalid_policy_context unknown_action policy_evaluation_failure : PolicyErrorCode
  invalid_decision_construction : PolicyErrorCode

pub data PolicyDecision : Type 0 where
  allow require_approval deny blocked_policy_error : PolicyDecision

pub record PolicyContext : Type 0 where
  pub task_id : Object String
  pub task_state : Object TaskState
  pub action_name : Object String
  pub action_identity : Object String
  pub action_digest : Object String
  pub target_type : Object String
  pub target_identity : Object String
  pub plan_identity : Object String
  pub contract_identity : Object String
  pub expected_state : Object TaskState
  pub idempotency_key : Object String
  pub trusted_profile : Object String
  pub repository_capability_requests : List String
  pub user_approval_present : Object Bool
  pub llm_suggested_decision : Option String

pub record PolicyDecisionRecord : Type 0 where
  pub decision : PolicyDecision
  pub reason : PolicyReason
  pub detail : Option String
  pub error_code : Option PolicyErrorCode
  pub action_identity : Object String
  pub action_digest : Object String
  pub tool_execution_permitted : Bool
  pub approval_can_override : Bool
  pub effective_profile : Object String
  pub bound_task_id : Object String
  pub bound_target_type : Object String
  pub bound_target_identity : Object String
  pub bound_digest : Object String
  pub bound_expected_state : Object TaskState
  pub bound_idempotency_key : Object String

-- `PolicyContext.__post_init__`: the requests are a `set` or a `frozenset` of texts, and the
-- suggestion is a text or `None`; `none` for its `ValueError`.
texts : List (Object String) → Option (List String)
texts [] = some []
texts (exact s ∷ rest) = elim (texts rest) [ none ↦ none | some more ↦ some (s ∷ more) ]
texts (absent ∷ rest) = none
texts (other ∷ rest) = none

suggestion : Object String → Option (Option String)
suggestion (exact s) = some (some s)
suggestion absent = some none
suggestion other = none

pub checked_requests :
    Object (List (Object String)) → Object String → Option (List String × Option String)
unfolding texts suggestion
checked_requests (exact requests) suggested = elim (texts requests) [
  | none ↦ none
  | some rs ↦ elim (suggestion suggested) [ none ↦ none | some s ↦ some (rs, s) ]
]
checked_requests _ suggested = none

-- `required_strings`
abbrev pub required_strings : PolicyContext → List (Object String)
required_strings context =
    context.task_id ∷ context.action_name ∷ context.action_identity ∷ context.action_digest
    ∷ context.target_type ∷ context.target_identity ∷ context.plan_identity
    ∷ context.contract_identity ∷ context.idempotency_key ∷ context.trusted_profile ∷ []

-- `any(type(value) is not str or not value for value in required_strings)`
pub has_unfilled : PolicyContext → Bool
has_unfilled context = any (λ value. not (holds nonempty_text value)) (required_strings context)

-- `expected_state is task_state`, on two members of the enumeration.
pub states_agree : Object TaskState → Object TaskState → Bool
states_agree (exact s) (exact t) = s == t
states_agree _ _ = false

-- `PolicyEngine._context_is_valid`. The requests are a `frozenset` after construction.
pub context_is_valid : PolicyContext → Bool
unfolding states_agree
context_is_valid context =
    if has_unfilled context
    then false
    else if not (is_exact context.task_state)
    then false
    else if not (is_exact context.expected_state)
    then false
    else if not (states_agree context.expected_state context.task_state)
    then false
    else if not (is_exact context.user_approval_present)
    then false
    else holds is_digest context.action_digest

-- `_blocked` without a context
pub blocked : PolicyErrorCode → PolicyDecisionRecord
blocked error_code = record {
  decision = PolicyDecision.blocked_policy_error;
  reason = PolicyReason.blocked_policy_error;
  detail = some "policy context rejected";
  error_code = some error_code;
  action_identity = absent;
  action_digest = absent;
  tool_execution_permitted = false;
  approval_can_override = false;
  effective_profile = absent;
  bound_task_id = absent;
  bound_target_type = absent;
  bound_target_identity = absent;
  bound_digest = absent;
  bound_expected_state = absent;
  bound_idempotency_key = absent;
}

-- `_blocked` with one
pub blocked_in : PolicyContext → PolicyErrorCode → PolicyDecisionRecord
unfolding blocked
blocked_in context error_code = record (blocked error_code) {
  action_identity = context.action_identity;
  action_digest = context.action_digest;
  effective_profile = context.trusted_profile;
}

-- `_record`
pub decision_record :
    PolicyContext
    → PolicyDecision
    → PolicyReason
    → Option String
    → Bool
    → Bool
    → PolicyDecisionRecord
decision_record context decision reason detail permitted override = record {
  decision = decision;
  reason = reason;
  detail = detail;
  error_code = none;
  action_identity = context.action_identity;
  action_digest = context.action_digest;
  tool_execution_permitted = permitted;
  approval_can_override = override;
  effective_profile = context.trusted_profile;
  bound_task_id = context.task_id;
  bound_target_type = context.target_type;
  bound_target_identity = context.target_identity;
  bound_digest = context.action_digest;
  bound_expected_state = context.expected_state;
  bound_idempotency_key = context.idempotency_key;
}

-- The part of `_decide` behind the parsing of the action's name.
pub decide_action : PolicyContext → PolicyActionKind → PolicyDecisionRecord
unfolding decision_record blocked_in
decide_action context action =
    if hard_deny_actions action
    then decision_record context PolicyDecision.deny PolicyReason.denied_capability
        (some "permanent hard boundary") false false
    else if unsupported_actions action
    then decision_record context PolicyDecision.deny PolicyReason.blocked_unsupported_capability
        (some "unsupported capability") false false
    else if approval_actions action
    then decision_record context PolicyDecision.require_approval PolicyReason.approval_required
        (some "bound approval required") false true
    else if allow_actions action
    then decision_record context PolicyDecision.allow PolicyReason.allowed none true false
    else blocked_in context PolicyErrorCode.policy_evaluation_failure

-- `PolicyActionKind(context.action_name)`; no member has the value of an object that is no text.
pub named_action : Object String → Option PolicyActionKind
named_action (exact name) = action_kind name
named_action _ = none

-- `PolicyEngine.decide`
pub decide : Object PolicyContext → PolicyDecisionRecord
unfolding blocked blocked_in
decide (exact context) =
    if not (context_is_valid context)
    then blocked_in context PolicyErrorCode.invalid_policy_context
    else elim (named_action context.action_name) [
      | none ↦ blocked_in context PolicyErrorCode.unknown_action
      | some action ↦ decide_action context action
    ]
decide _ = blocked PolicyErrorCode.invalid_policy_context
