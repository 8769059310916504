-- ===== src/Domain/Policy/Examples.antt =====
-- Policy decisions at concrete contexts.
use ai_coding_agent_harness.Base.{
  String, ◌≡◌, ◌≢◌, ◌⊎◌, ◌↔◌, refl, true, false, none, some, [], ◌∷◌, exact,
}
use ai_coding_agent_harness.Domain.Enums.{TaskState, TaskState-discrete}
use ai_coding_agent_harness.Domain.Text.{is_digest, nonempty_text}
use ai_coding_agent_harness.Domain.Actions.{
  PolicyActionKind, action_kind, allow_actions, approval_actions, unsupported_actions,
  hard_deny_actions,
}
use ai_coding_agent_harness.Domain.Policy.{
  PolicyReason, PolicyContext, PolicyDecision, has_unfilled, context_is_valid, named_action,
  decide_action, decide,
}
use ai_coding_agent_harness.Domain.Policy.Valid.{IsValidContext, context_is_valid_iff}
use ai_coding_agent_harness.Domain.Policy.Decisions.{
  Requests, decide_permits_iff, decide_overridable_iff, decide_denies_iff, decide_is_bound,
  decide_ignores,
}

program : Unit {0}
unfolding has_unfilled context_is_valid named_action decide_action decide action_kind allow_actions
    approval_actions unsupported_actions hard_deny_actions is_digest nonempty_text
    TaskState-discrete
program = tt

abbrev context_for : String → PolicyContext
context_for name = record {
  task_id = exact "task";
  task_state = exact TaskState.executing;
  action_name = exact name;
  action_identity = exact "action";
  action_digest = exact "0123456789abcdef0123456789abcdef0123456789abcdef0123456789abcdef";
  target_type = exact "file";
  target_identity = exact "README.md";
  plan_identity = exact "plan";
  contract_identity = exact "contract";
  expected_state = exact TaskState.executing;
  idempotency_key = exact "key";
  trusted_profile = exact "python";
  repository_capability_requests = [];
  user_approval_present = exact true;
  llm_suggested_decision = some "ALLOW";
}

abbrev push : PolicyContext
push = context_for "git_push"

push_denied : (decide (exact push)).decision ≡ PolicyDecision.deny
unfolding program
push_denied = refl

context_is_valid_iff_example : (context_is_valid push ≡ true) ↔ IsValidContext push
context_is_valid_iff_example = context_is_valid_iff push

push-IsValidContext : IsValidContext push
unfolding program
push-IsValidContext = (context_is_valid_iff push).0 refl

decide_permits_iff_example :
    ((decide (exact (context_for "read_file"))).tool_execution_permitted ≡ true)
    ↔ Requests allow_actions (context_for "read_file")
decide_permits_iff_example = decide_permits_iff (context_for "read_file")

decide_overridable_iff_example :
    ((decide (exact (context_for "delete_file"))).approval_can_override ≡ true)
    ↔ Requests approval_actions (context_for "delete_file")
decide_overridable_iff_example = decide_overridable_iff (context_for "delete_file")

decide_denies_iff_example :
    let r = decide (exact push) in
    ((r.reason ≡ PolicyReason.denied_capability) ↔ Requests hard_deny_actions push)
    × ((r.reason ≡ PolicyReason.blocked_unsupported_capability) ↔ Requests unsupported_actions push)
    × ((r.decision ≡ PolicyDecision.deny)
        ↔ (Requests hard_deny_actions push ⊎ Requests unsupported_actions push))
decide_denies_iff_example = decide_denies_iff push

decide_is_bound_example :
    let r = decide (exact push) in
    (r.decision ≢ PolicyDecision.blocked_policy_error)
    × (r.error_code ≡ none)
    × (r.bound_task_id ≡ exact "task")
    × (r.bound_target_type ≡ exact "file")
    × (r.bound_target_identity ≡ exact "README.md")
    × (r.bound_digest ≡ push.action_digest)
    × (r.bound_expected_state ≡ exact TaskState.executing)
    × (r.bound_idempotency_key ≡ exact "key")
unfolding program
decide_is_bound_example = decide_is_bound push PolicyActionKind.git_push push-IsValidContext refl

decide_ignores_example :
    decide (
      exact (record push {
        repository_capability_requests = "push" ∷ [];
        user_approval_present = exact false;
        llm_suggested_decision = none;
      }))
    ≡ decide (exact push)
decide_ignores_example = decide_ignores push ("push" ∷ []) none true false refl
