-- ===== src/Domain/StateMachine/Effects.antt =====
-- What a result asks of the caller: to apply it, to acquire the lease, to resume the agent loop.
use ai_coding_agent_harness.Base.{
  ◌≢◌, Bool-cases, inl, inr, ◌≡◌, ◌⊎◌, ◌↔◌, true, false, some, arith, dec_equals_iff, Option-cases,
}
use ai_coding_agent_harness.Domain.Enums.{
  task_state_eq, TransitionReason, TaskState, TaskState-discrete, TransitionTrigger,
  IdempotencyStatus,
}
use ai_coding_agent_harness.Domain.Models.{TransitionCommand, TransitionResult}
use ai_coding_agent_harness.Domain.Transitions.{
  transitions, active_states, lease_acquisition_triggers, agent_loop_triggers,
}
use ai_coding_agent_harness.Domain.StateMachine.Branches.{checked_cases, transition_cases}
use ai_coding_agent_harness.Domain.StateMachine.{
  transition, checked_transition, table_transition, cancel, block, fail, idempotency_replay, denied,
  permitted_to, recovery_noop,
}

-- A result that is not to be applied asks for nothing, and leaves the task where it is unless it
-- replays an earlier answer. One that is to be applied is a permitted answer to a new request.
abbrev pub IsInert : TransitionCommand → TransitionResult → Type 0
IsInert c r =
    (r.changed ≡ false)
    × (r.lease_acquisition_required ≡ false)
    × (r.agent_loop_resume_permitted ≡ false)
    × ((r.target ≡ c.current_state) ⊎ (r.idempotency_status ≡ IdempotencyStatus.replayed))

-- The loop is resumed only together with the lease, into investigation or execution; the lease
-- is asked for only on the way into an active state.
abbrev pub IsGuarded : TransitionResult → Type 0
IsGuarded r =
    (r.agent_loop_resume_permitted ≡ true
      → (r.lease_acquisition_required ≡ true)
        × ((r.target ≡ TaskState.investigating) ⊎ (r.target ≡ TaskState.executing)))
    × (r.lease_acquisition_required ≡ true → active_states r.target ≡ true)

pub record HasEffects (c : TransitionCommand) (r : TransitionResult) : Type 0 where
  pub inert : r.should_apply ≡ false → IsInert c r
  pub permitted : r.should_apply ≡ true → r.permitted ≡ true
  pub new : r.should_apply ≡ true → r.idempotency_status ≡ IdempotencyStatus.new
  pub changed : r.should_apply ≡ true → (r.changed ≡ true) ↔ (r.target ≢ c.current_state)
  pub guarded : r.should_apply ≡ true → IsGuarded r

table_effects :
    (s : TaskState) (t : TransitionTrigger) (u : TaskState)
    → transitions s t ≡ some u
    → (agent_loop_triggers t ≡ true
        → (lease_acquisition_triggers t ≡ true)
          × ((u ≡ TaskState.investigating) ⊎ (u ≡ TaskState.executing)))
      × (lease_acquisition_triggers t ≡ true → active_states u ≡ true)
unfolding transitions agent_loop_triggers lease_acquisition_triggers
table_effects s t u e = ground arith

denied-HasEffects :
    (c : TransitionCommand) (reason : TransitionReason) → HasEffects c (denied c reason)
unfolding denied
denied-HasEffects c reason = ground arith

table_transition-HasEffects : (c : TransitionCommand) → HasEffects c (table_transition c)
unfolding table_transition
table_transition-HasEffects c = elim (Option-cases (transitions c.current_state c.trigger)) [
  | inl e ↦ ground arith
  | inr (u, e) ↦ ground (
    arith,
    table_effects c.current_state c.trigger u e,
    dec_equals_iff TaskState-discrete u c.current_state,
  )
]

cancel-HasEffects : (c : TransitionCommand) → HasEffects c (cancel c)
unfolding cancel
cancel-HasEffects c =
    ground (arith, dec_equals_iff TaskState-discrete TaskState.cancelled c.current_state)

block-HasEffects : (c : TransitionCommand) → HasEffects c (block c)
unfolding block
block-HasEffects c =
    ground (arith, dec_equals_iff TaskState-discrete TaskState.blocked c.current_state)

fail-HasEffects : (c : TransitionCommand) → HasEffects c (fail c)
unfolding fail
fail-HasEffects c =
    ground (arith, dec_equals_iff TaskState-discrete TaskState.failed c.current_state)

noop-HasEffects :
    (c : TransitionCommand)
    → c.current_state ≡ TaskState.recovery_required
    → HasEffects c (recovery_noop c)
unfolding recovery_noop
noop-HasEffects c e = ground arith

recovery-HasEffects :
    (c : TransitionCommand)
    → HasEffects c (
        permitted_to c TaskState.recovery_required TransitionReason.uncertain_effect_recovery false
          false)
unfolding permitted_to
recovery-HasEffects c =
    ground (arith, dec_equals_iff TaskState-discrete TaskState.recovery_required c.current_state)

checked-HasEffects : (c : TransitionCommand) → HasEffects c (checked_transition c)
checked-HasEffects c =
    checked_cases (HasEffects c) c (denied-HasEffects c _)
      (λ e. noop-HasEffects c ((dec_equals_iff TaskState-discrete _ _).0 e)) (recovery-HasEffects c)
      (cancel-HasEffects c) (block-HasEffects c) (fail-HasEffects c) (table_transition-HasEffects c)

replay-HasEffects :
    (c : TransitionCommand) {r : TransitionResult} → idempotency_replay c ≡ some r → HasEffects c r
unfolding idempotency_replay
replay-HasEffects c e = ground arith

transition-HasEffects : (c : TransitionCommand) → HasEffects c (transition c)
transition-HasEffects c =
    transition_cases (HasEffects c) c (λ r e. replay-HasEffects c e) (denied-HasEffects c _)
      (denied-HasEffects c _) (checked-HasEffects c)

-- An answer that is not to be applied says that nothing changed, asks neither for the lease nor
-- for the agent loop, and its target is the task's own state unless it is a replay.
pub transition_inert :
    (c : TransitionCommand)
    → (transition c).should_apply ≡ false
    → let r = transition c in
      (r.changed ≡ false)
      × (r.lease_acquisition_required ≡ false)
      × (r.agent_loop_resume_permitted ≡ false)
      × ((r.target ≡ c.current_state) ⊎ (r.idempotency_status ≡ IdempotencyStatus.replayed))
transition_inert c h = (transition-HasEffects c).inert h

-- An answer that is to be applied is permitted and answers a new request, and it says that the
-- state changes exactly when its target is another state.
transition_applied :
    (c : TransitionCommand)
    → (transition c).should_apply ≡ true
    → let r = transition c in
      (r.permitted ≡ true)
      × (r.idempotency_status ≡ IdempotencyStatus.new)
      × ((r.changed ≡ true) ↔ (r.target ≢ c.current_state))
transition_applied c h = let e = transition-HasEffects c in (e.permitted h, e.new h, e.changed h)

-- The agent loop is resumed only by an answer that is to be applied, together with the lease,
-- and into investigation or execution.
pub transition_resumes :
    (c : TransitionCommand)
    → (transition c).agent_loop_resume_permitted ≡ true
    → let r = transition c in
      (r.should_apply ≡ true)
      × (r.lease_acquisition_required ≡ true)
      × ((r.target ≡ TaskState.investigating) ⊎ (r.target ≡ TaskState.executing))
transition_resumes c h = elim (Bool-cases (transition c).should_apply) [
  | inl applied ↦
      let (lease, target) = ((transition-HasEffects c).guarded applied).0 h in
      (applied, lease, target)
  | inr not_applied ↦
      let quiet = ((transition-HasEffects c).inert not_applied).2 in absurd (ground arith)
]

-- The lease is asked for only by an answer that is to be applied and enters an active state.
pub transition_leases :
    (c : TransitionCommand)
    → (transition c).lease_acquisition_required ≡ true
    → ((transition c).should_apply ≡ true) × (active_states (transition c).target ≡ true)
transition_leases c h = elim (Bool-cases (transition c).should_apply) [
  | inl applied ↦ (applied, ((transition-HasEffects c).guarded applied).1 h)
  | inr not_applied ↦
      let quiet = ((transition-HasEffects c).inert not_applied).1 in absurd (ground arith)
]
