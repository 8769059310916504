-- ===== src/Domain/StateMachine/Closing.antt =====
-- Every task can be brought to an end.
use ai_coding_agent_harness.Base.{sym, ◌≡◌, ◌≢◌, refl, true, false, none, List, [], ◌∷◌}
use ai_coding_agent_harness.Domain.Enums.{TaskState, TransitionTrigger, terminal_states}
use ai_coding_agent_harness.Domain.Models.{TransitionCommand}
use ai_coding_agent_harness.Domain.Transitions.{transitions, required_preconditions}
use ai_coding_agent_harness.Domain.StateMachine.Spec.{Moves}
use ai_coding_agent_harness.Domain.StateMachine.Complete.{MovesTo, transition_iff}
use ai_coding_agent_harness.Domain.StateMachine.{transition}
use ai_coding_agent_harness.Domain.StateMachine.Runs.{Run}

-- A first request in a state, every precondition met and no version expected.
abbrev pub request : TaskState → TransitionTrigger → TransitionCommand
request s t = record {
  current_state = s;
  expected_state = s;
  trigger = t;
  idempotency = record { key = "key"; request_digest = "digest" };
  preconditions = record {
    frozen_checks_passed = true;
    clarification_persisted = true;
    provider_unlocked = true;
    changeset_ready = true;
    acceptance_ready = true;
    apply_confirmation_valid = true;
    writeback_verified = true;
    rollback_verified = true;
    recovery_evidence_valid = true;
    safe_cleanup_completed = true;
    active_execution_confirmed = true;
  };
  uncertain_file_effect = false;
  current_plan_version = none;
  expected_plan_identity = none;
  current_contract_version = none;
  expected_contract_identity = none;
  prior_idempotency = none;
  blocked_reason = none;
  failure_reason = none;
}

request-MovesTo :
    (s t : TaskState) (trigger : TransitionTrigger)
    → terminal_states s ≡ false
    → Moves (request s trigger) t
    → MovesTo (transition (request s trigger)) t
request-MovesTo s t trigger live m =
    (transition_iff (request s trigger) t).1
      (record { unseen = tt; state = refl; plan = tt; contract = tt; live = live }, m)

abbrev pub Ends : TaskState → Type 0
Ends s = (cs : List TransitionCommand) × (t : TaskState) × Run s cs t × (terminal_states t ≡ true)

cancels : (s : TaskState) → terminal_states s ≡ false → s ≢ TaskState.recovery_required → Ends s
cancels s live ne =
    let (applied, target) =
      request-MovesTo s TaskState.cancelled TransitionTrigger.cancel_task live
        (Moves.cancelled refl refl ne refl refl) in
    (
      request s TransitionTrigger.cancel_task ∷ [],
      TaskState.cancelled,
      (refl, applied, target),
      refl,
    )

recovers : Ends TaskState.recovery_required
unfolding transitions required_preconditions
recovers =
    let (back, rolling) =
      request-MovesTo TaskState.recovery_required TaskState.rolling_back
        TransitionTrigger.request_recovery refl
        (Moves.by_table refl
          (record { not_cancel = λ e. cc; not_block = λ e. cc; not_fail = λ e. cc }) refl
          (refl, tt)) in
    let (done, failed) =
      request-MovesTo TaskState.rolling_back TaskState.failed TransitionTrigger.rollback_succeeded
        refl
        (Moves.by_table refl
          (record { not_cancel = λ e. cc; not_block = λ e. cc; not_fail = λ e. cc }) refl
          (refl, tt)) in
    (
      request TaskState.recovery_required TransitionTrigger.request_recovery
          ∷ request TaskState.rolling_back TransitionTrigger.rollback_succeeded
          ∷ [],
      TaskState.failed,
      (refl, back, (sym rolling, done, failed)),
      refl,
    )

-- From every state some run of applied requests leads to a terminal one.
pub ends : (s : TaskState) → Ends s
ends TaskState.completed = ([], TaskState.completed, refl, refl)
ends TaskState.not_applied = ([], TaskState.not_applied, refl, refl)
ends TaskState.failed = ([], TaskState.failed, refl, refl)
ends TaskState.cancelled = ([], TaskState.cancelled, refl, refl)
ends TaskState.recovery_required = recovers
ends s = cancels s refl (λ e. cc)
