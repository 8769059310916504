-- ===== src/Domain/Policy/Decisions.antt =====
-- What the engine permits, what an approval may override, and what it does not listen to.
use ai_coding_agent_harness.Base.{
  String, ◌≡◌, ◌≢◌, ◌⊎◌, inl, inr, ◌↔◌, Bool, true, false, Option, none, some, List, arith, exact,
  Bool-cases, Option-cases,
}
use ai_coding_agent_harness.Domain.Actions.{
  unsupported_actions, PolicyActionKind, allow_actions, approval_actions, hard_deny_actions,
}
use ai_coding_agent_harness.Domain.Policy.{
  PolicyReason, has_unfilled, PolicyContext, PolicyDecision, context_is_valid, decide_action,
  named_action, decide,
}
use ai_coding_agent_harness.Domain.Policy.Sets.{one_set}
use ai_coding_agent_harness.Domain.Policy.Valid.{IsValidContext, context_is_valid_iff}

-- The context is valid and names an action of the set.
abbrev pub Requests : (PolicyActionKind → Bool) → PolicyContext → Type 0
Requests set context =
    IsValidContext context
    × (k : PolicyActionKind) × (named_action context.action_name ≡ some k)
    × (set k ≡ true)

-- A result that depends on the action alone comes from a valid context that names one.
from_action :
    (context : PolicyContext)
    → (decide (exact context)).decision ≢ PolicyDecision.blocked_policy_error
    → (context_is_valid context ≡ true)
      × (k : PolicyActionKind) × (named_action context.action_name ≡ some k)
      × (decide (exact context) ≡ decide_action context k)
unfolding decide
from_action context h = elim (Option-cases (named_action context.action_name)) [
  | inl unknown ↦ absurd (h (ground arith))
  | inr (k, named) ↦ elim (Bool-cases (context_is_valid context)) [
    | inl valid ↦ (valid, k, named, ground arith)
    | inr bad ↦ absurd (h (ground arith))
  ]
]

to_action :
    (context : PolicyContext) (k : PolicyActionKind)
    → context_is_valid context ≡ true
    → named_action context.action_name ≡ some k
    → decide (exact context) ≡ decide_action context k
unfolding decide
to_action context k valid named = ground arith

-- A record that permits or may be overridden is not a blocked one.
open_not_blocked :
    (context : PolicyContext)
    → (decide (exact context)).decision ≡ PolicyDecision.blocked_policy_error
    → ((decide (exact context)).tool_execution_permitted ≡ false)
      × ((decide (exact context)).approval_can_override ≡ false)
unfolding decide decide_action
open_not_blocked context h = ground arith

-- A blocked record has the reason of an error.
blocked_reason :
    (context : PolicyContext)
    → (decide (exact context)).decision ≡ PolicyDecision.blocked_policy_error
    → (decide (exact context)).reason ≡ PolicyReason.blocked_policy_error
unfolding decide decide_action
blocked_reason context h = ground arith

-- A tool may run without an approval exactly for a valid context that names an action of the
-- allowed set.
pub decide_permits_iff :
    (context : PolicyContext)
    → ((decide (exact context)).tool_execution_permitted ≡ true) ↔ Requests allow_actions context
unfolding decide_action
decide_permits_iff context = (
  λ h.
      let (valid, k, named, same) =
        from_action context (λ b. ground (arith, open_not_blocked context b)) in
      ((context_is_valid_iff context).0 valid, k, named, ground arith),
  λ (valid, k, named, allowed).
      rw (to_action context k ((context_is_valid_iff context).1 valid) named)
        (ground (arith, one_set k)),
)

-- An approval may override the decision exactly for a valid context that names an action of the
-- approval set.
pub decide_overridable_iff :
    (context : PolicyContext)
    → ((decide (exact context)).approval_can_override ≡ true) ↔ Requests approval_actions context
unfolding decide_action
decide_overridable_iff context = (
  λ h.
      let (valid, k, named, same) =
        from_action context (λ b. ground (arith, open_not_blocked context b)) in
      ((context_is_valid_iff context).0 valid, k, named, ground arith),
  λ (valid, k, named, allowed).
      rw (to_action context k ((context_is_valid_iff context).1 valid) named)
        (ground (arith, one_set k)),
)

-- The two reasons of a denial. The capability is denied exactly for a valid context that names an
-- action behind the permanent boundary, it is unsupported exactly for a valid context that names
-- an action of the unsupported set, and the decision is to deny exactly in these two cases.
pub decide_denies_iff :
    (context : PolicyContext)
    → let r = decide (exact context) in
      ((r.reason ≡ PolicyReason.denied_capability) ↔ Requests hard_deny_actions context)
      × ((r.reason ≡ PolicyReason.blocked_unsupported_capability)
          ↔ Requests unsupported_actions context)
      × ((r.decision ≡ PolicyDecision.deny)
          ↔ (Requests hard_deny_actions context ⊎ Requests unsupported_actions context))
unfolding decide_action
decide_denies_iff context = (
  (
    λ h.
        let (valid, k, named, same) =
          from_action context (λ b. ground (arith, blocked_reason context b)) in
        ((context_is_valid_iff context).0 valid, k, named, ground arith),
    λ (valid, k, named, hard).
        rw (to_action context k ((context_is_valid_iff context).1 valid) named)
          (ground (arith, one_set k)),
  ),
  (
    λ h.
        let (valid, k, named, same) =
          from_action context (λ b. ground (arith, blocked_reason context b)) in
        ((context_is_valid_iff context).0 valid, k, named, ground arith),
    λ (valid, k, named, unsupported).
        rw (to_action context k ((context_is_valid_iff context).1 valid) named)
          (ground (arith, one_set k)),
  ),
  (
    λ h.
        let (valid, k, named, same) = from_action context (λ b. ground arith) in
        let is_valid = (context_is_valid_iff context).0 valid in
        elim (Bool-cases (hard_deny_actions k)) [
          | inl hard ↦ inl (is_valid, k, named, hard)
          | inr soft ↦ inr (is_valid, k, named, ground arith)
        ],
    λ h. elim h [
      | inl (valid, k, named, hard) ↦
          rw (to_action context k ((context_is_valid_iff context).1 valid) named)
            (ground (arith, one_set k))
      | inr (valid, k, named, unsupported) ↦
          rw (to_action context k ((context_is_valid_iff context).1 valid) named)
            (ground (arith, one_set k))
    ],
  ),
)

-- Every valid context with a known action gets a decision: the engine's last resort, a blocked
-- evaluation, is never reached, and the record is bound to the context's task, target, digest,
-- state and key.
pub decide_is_bound :
    (context : PolicyContext) (k : PolicyActionKind)
    → IsValidContext context
    → named_action context.action_name ≡ some k
    → let r = decide (exact context) in
      (r.decision ≢ PolicyDecision.blocked_policy_error)
      × (r.error_code ≡ none)
      × (r.bound_task_id ≡ context.task_id)
      × (r.bound_target_type ≡ context.target_type)
      × (r.bound_target_identity ≡ context.target_identity)
      × (r.bound_digest ≡ context.action_digest)
      × (r.bound_expected_state ≡ context.expected_state)
      × (r.bound_idempotency_key ≡ context.idempotency_key)
unfolding decide_action
decide_is_bound context k valid named =
    rw (to_action context k ((context_is_valid_iff context).1 valid) named)
      (ground (arith, one_set k))

-- What the repository asks for, what the model suggests and whether an approval is already there
-- have no influence on the decision.
pub decide_ignores :
    (context : PolicyContext) (requests : List String) (suggested : Option String)
    (approved approved' : Bool)
    → context.user_approval_present ≡ exact approved
    → decide (
        exact (record context {
          repository_capability_requests = requests;
          user_approval_present = exact approved';
          llm_suggested_decision = suggested;
        }))
      ≡ decide (exact context)
unfolding decide context_is_valid decide_action has_unfilled
decide_ignores context requests suggested approved approved' h = simp h
