-- ===== src/Domain/StateMachine/Examples.antt =====
-- Runs of the task state machine at concrete requests.
use ai_coding_agent_harness.Base.{
  true, ◌⊎◌, ◌≡◌, ◌↔◌, refl, false, List, [], ◌∷◌, ◌++◌, arith, text_equals_iff,
}
use ai_coding_agent_harness.Domain.Enums.{
  TaskState, TaskState-discrete, TransitionTrigger, TransitionTrigger-discrete, TransitionReason,
  IdempotencyStatus,
}
use ai_coding_agent_harness.Domain.Models.{TransitionCommand}
use ai_coding_agent_harness.Domain.Transitions.{
  active_states, transitions, required_preconditions, lease_acquisition_triggers,
  agent_loop_triggers,
}
use ai_coding_agent_harness.Domain.StateMachine.{
  transition, checked_transition, table_transition, cancel, block, fail, idempotency_replay,
  versions_match,
}
use ai_coding_agent_harness.Domain.StateMachine.Spec.{IsCurrent, Moves}
use ai_coding_agent_harness.Domain.StateMachine.Complete.{MovesTo, transition_iff}
use ai_coding_agent_harness.Domain.StateMachine.Replay.{transition-transition, transition-conflict}
use ai_coding_agent_harness.Domain.StateMachine.Runs.{
  Run, Accepts, ConfirmsApply, VerifiesWriteback, completed_needs_evidence,
}
use ai_coding_agent_harness.Domain.StateMachine.Effects.{
  transition_inert, transition_resumes, transition_leases,
}
use ai_coding_agent_harness.Domain.StateMachine.Closing.{request, Ends, ends}

-- What a test must see through.
program : Unit {0}
unfolding transition checked_transition table_transition cancel block fail idempotency_replay
    versions_match transitions required_preconditions lease_acquisition_triggers agent_loop_triggers
    TaskState-discrete TransitionTrigger-discrete
program = tt

abbrev submit : TransitionCommand
submit = request TaskState.draft TransitionTrigger.submit_task

submit_permitted : (transition submit).target ≡ TaskState.investigating
unfolding program
submit_permitted = refl

-- Without the frozen checks nothing is executed.
unchecked_refused :
    (transition (record (request TaskState.ready_to_execute TransitionTrigger.continue_execution) {
      preconditions = record (submit.preconditions) { frozen_checks_passed = false };
    })).reason
    ≡ TransitionReason.precondition_failed
unfolding program
unchecked_refused = refl

transition_iff_example :
    MovesTo (transition submit) TaskState.investigating
    ↔ (IsCurrent submit × Moves submit TaskState.investigating)
transition_iff_example = transition_iff submit TaskState.investigating

transition_resumes_example :
    let r = transition submit in
    (r.should_apply ≡ true)
    × (r.lease_acquisition_required ≡ true)
    × ((r.target ≡ TaskState.investigating) ⊎ (r.target ≡ TaskState.executing))
unfolding program
transition_resumes_example = transition_resumes submit refl

transition_leases_example :
    ((transition submit).should_apply ≡ true) × (active_states (transition submit).target ≡ true)
unfolding program
transition_leases_example = transition_leases submit refl

abbrev stale : TransitionCommand
stale = record submit { expected_state = TaskState.executing }

transition_inert_example :
    let r = transition stale in
    (r.changed ≡ false)
    × (r.lease_acquisition_required ≡ false)
    × (r.agent_loop_resume_permitted ≡ false)
    × ((r.target ≡ TaskState.draft) ⊎ (r.idempotency_status ≡ IdempotencyStatus.replayed))
unfolding program
transition_inert_example = transition_inert stale refl

-- The same request again, now in the state that the first answer left.
abbrev again : TransitionCommand
again = record submit {
  current_state = TaskState.investigating;
  prior_idempotency = (transition submit).idempotency_record;
}

transition-transition_example : transition again ≡ record (transition submit) {
  should_apply = false;
  changed = false;
  lease_acquisition_required = false;
  agent_loop_resume_permitted = false;
  idempotency_status = IdempotencyStatus.replayed;
}
transition-transition_example = transition-transition submit again tt refl refl

-- Something else under the key of the first request, and then the first request again.
abbrev reused : TransitionCommand
reused = record submit {
  idempotency = record (submit.idempotency) { request_digest = "other" };
  prior_idempotency = (transition submit).idempotency_record;
}

abbrev after_conflict : TransitionCommand
after_conflict = record submit { prior_idempotency = (transition reused).idempotency_record }

transition-conflict_example :
    ((transition reused).idempotency_status ≡ IdempotencyStatus.conflict)
    × ((transition reused).permitted ≡ false)
    × ((transition reused).should_apply ≡ false)
    × ((transition reused).changed ≡ false)
    × ((transition reused).target ≡ reused.current_state)
    × ((transition reused).idempotency_record ≡ (transition submit).idempotency_record)
    × (transition after_conflict ≡ record (transition submit) {
      should_apply = false;
      changed = false;
      lease_acquisition_required = false;
      agent_loop_resume_permitted = false;
      idempotency_status = IdempotencyStatus.replayed;
    })
transition-conflict_example =
    transition-conflict submit reused after_conflict tt refl
      (λ e. ground (arith, text_equals_iff "other" "digest")) refl refl refl

-- A whole life: from the draft to the verified write-back.
abbrev life : List TransitionCommand
life =
    request TaskState.draft TransitionTrigger.submit_task
    ∷ request TaskState.investigating TransitionTrigger.persist_plan
    ∷ request TaskState.awaiting_plan_approval TransitionTrigger.approve_plan
    ∷ request TaskState.ready_to_execute TransitionTrigger.continue_execution
    ∷ request TaskState.executing TransitionTrigger.start_verification
    ∷ request TaskState.verifying TransitionTrigger.verification_passed
    ∷ request TaskState.ready_to_apply TransitionTrigger.confirm_apply
    ∷ request TaskState.applying TransitionTrigger.apply_succeeded
    ∷ []

life-Run : Run TaskState.draft life TaskState.completed
unfolding program
life-Run = (
  refl,
  refl,
  (
    refl,
    refl,
    (refl, refl, (refl, refl, (refl, refl, (refl, refl, (refl, refl, (refl, refl, refl)))))),
  ),
)

completed_needs_evidence_example :
    (before : List TransitionCommand) × (accepts confirms verifies : TransitionCommand) × (life
      ≡ ((before ++ accepts ∷ []) ++ confirms ∷ []) ++ verifies ∷ [])
    × Accepts accepts
    × ConfirmsApply confirms
    × VerifiesWriteback verifies
completed_needs_evidence_example = completed_needs_evidence life life-Run

ends_example : Ends TaskState.recovery_required
ends_example = ends TaskState.recovery_required
