-- ===== src/Domain/StateMachine/Branches.antt =====
-- Which part of `StateMachine.transition` answers a request.
use ai_coding_agent_harness.Base.{
  ◌==◌, ◌!=◌, Bool-cases, ◌≡◌, ◌↔◌, ◌≢◌, refl, true, false, Option, none, some, String, arith,
  dec_equals, dec_equals_iff, text_equals_iff, Option-cases, inl, inr,
}
use ai_coding_agent_harness.Domain.Enums.{
  task_state_eq, transition_trigger_eq, TransitionReason, TaskState, TaskState-discrete,
  terminal_states, TransitionTrigger, TransitionTrigger-discrete,
}
use ai_coding_agent_harness.Domain.Models.{
  PlanVersion, ContractVersion, IdempotencyRecord, TransitionCommand, TransitionResult,
}
use ai_coding_agent_harness.Domain.StateMachine.{
  denied, permitted_to, recovery_noop, transition, checked_transition, table_transition, cancel,
  block, fail, idempotency_replay, versions_match, plan_matches, contract_matches,
}
use ai_coding_agent_harness.Domain.StateMachine.Spec.{
  IsUnseen, PlanIsCurrent, ContractIsCurrent, IsCurrent, IsOrdinary,
}

trigger_beq_iff :
    (c : TransitionCommand) (t : TransitionTrigger)
    → (dec_equals TransitionTrigger-discrete c.trigger t ≡ true) ↔ (c.trigger ≡ t)
trigger_beq_iff c t = dec_equals_iff TransitionTrigger-discrete c.trigger t

module _ (c : TransitionCommand) (live : terminal_states c.current_state ≡ false) where
  pub checked-uncertain :
      c.uncertain_file_effect ≡ true
      → c.current_state ≢ TaskState.recovery_required
      → checked_transition c
        ≡ permitted_to c TaskState.recovery_required TransitionReason.uncertain_effect_recovery
            false false
  unfolding checked_transition
  checked-uncertain u ne =
      ground (arith, dec_equals_iff TaskState-discrete c.current_state TaskState.recovery_required)

  module _ (certain : c.uncertain_file_effect ≡ false) where
    pub checked-cancel : c.trigger ≡ TransitionTrigger.cancel_task → checked_transition c ≡ cancel c
    unfolding checked_transition
    checked-cancel e = ground (arith, trigger_beq_iff c TransitionTrigger.cancel_task)

    pub checked-block : c.trigger ≡ TransitionTrigger.enter_blocked → checked_transition c ≡ block c
    unfolding checked_transition
    checked-block e = ground (
      arith,
      trigger_beq_iff c TransitionTrigger.cancel_task,
      trigger_beq_iff c TransitionTrigger.enter_blocked,
    )

    pub checked-fail :
        c.trigger ≡ TransitionTrigger.fail_unrecoverably → checked_transition c ≡ fail c
    unfolding checked_transition
    checked-fail e = ground (
      arith,
      trigger_beq_iff c TransitionTrigger.cancel_task,
      trigger_beq_iff c TransitionTrigger.enter_blocked,
      trigger_beq_iff c TransitionTrigger.fail_unrecoverably,
    )

    pub checked-table : IsOrdinary c.trigger → checked_transition c ≡ table_transition c
    unfolding checked_transition
    checked-table o = ground (
      arith,
      o.not_cancel,
      o.not_block,
      o.not_fail,
      trigger_beq_iff c TransitionTrigger.cancel_task,
      trigger_beq_iff c TransitionTrigger.enter_blocked,
      trigger_beq_iff c TransitionTrigger.fail_unrecoverably,
    )

-- To prove something of every answer behind the checks, prove it of each part.
pub checked_cases :
    (P : TransitionResult → Type 0) (c : TransitionCommand)
    → P (denied c TransitionReason.terminal_state)
    → (dec_equals TaskState-discrete c.current_state TaskState.recovery_required ≡ true
        → P (recovery_noop c))
    → P (
        permitted_to c TaskState.recovery_required TransitionReason.uncertain_effect_recovery false
          false)
    → P (cancel c)
    → P (block c)
    → P (fail c)
    → P (table_transition c)
    → P (checked_transition c)
unfolding checked_transition
checked_cases P c ended noop recover k b f t = elim (Bool-cases (terminal_states c.current_state)) [
  | inl e ↦ rw e ended
  | inr e ↦ rw e (elim (Bool-cases c.uncertain_file_effect) [
    | inl u ↦ simp u (elim (Bool-cases (c.current_state == TaskState.recovery_required)) [
      | inl s ↦ rw s (noop s)
      | inr s ↦ rw s recover
    ])
    | inr u ↦ simp u (elim (Bool-cases (c.trigger == TransitionTrigger.cancel_task)) [
      | inl s ↦ rw s k
      | inr s ↦ rw s (elim (Bool-cases (c.trigger == TransitionTrigger.enter_blocked)) [
        | inl s' ↦ rw s' b
        | inr s' ↦ rw s' (elim (Bool-cases (c.trigger == TransitionTrigger.fail_unrecoverably)) [
          | inl s'' ↦ rw s'' f
          | inr s'' ↦ rw s'' t
        ])
      ])
    ])
  ])
]

pub unseen-no_replay :
    (prior : Option IdempotencyRecord) (c : TransitionCommand)
    → c.prior_idempotency ≡ prior
    → IsUnseen prior c.idempotency.key
    → idempotency_replay c ≡ none
unfolding idempotency_replay
unseen-no_replay none c p u = ground arith
unseen-no_replay (some prior) c p u = ground (arith, text_equals_iff prior.key c.idempotency.key)

pub no_replay-IsUnseen :
    (prior : Option IdempotencyRecord) (c : TransitionCommand)
    → c.prior_idempotency ≡ prior
    → idempotency_replay c ≡ none
    → IsUnseen prior c.idempotency.key
unfolding idempotency_replay
no_replay-IsUnseen none c p e = tt
no_replay-IsUnseen (some prior) c p e =
    λ k. ground (arith, text_equals_iff prior.key c.idempotency.key)

plan_matches_iff :
    (c : TransitionCommand) (e : Option String) (v : Option PlanVersion)
    → c.expected_plan_identity ≡ e
    → c.current_plan_version ≡ v
    → (plan_matches c ≡ true) ↔ PlanIsCurrent e v
unfolding plan_matches
plan_matches_iff c none v p q = (λ _. tt, λ _. ground arith)
plan_matches_iff c (some e) none p q = (λ h. absurd (ground arith), λ h. absurd h)
plan_matches_iff c (some e) (some v) p q = ground (arith, text_equals_iff v.identity e)

contract_matches_iff :
    (c : TransitionCommand) (e : Option String) (v : Option ContractVersion)
    → c.expected_contract_identity ≡ e
    → c.current_contract_version ≡ v
    → (contract_matches c ≡ true) ↔ ContractIsCurrent e v
unfolding contract_matches
contract_matches_iff c none v p q = (λ _. tt, λ _. ground arith)
contract_matches_iff c (some e) none p q = (λ h. absurd (ground arith), λ h. absurd h)
contract_matches_iff c (some e) (some v) p q = ground (arith, text_equals_iff v.identity e)

pub versions_match_iff :
    (c : TransitionCommand)
    → (versions_match c ≡ true) ↔ (
        PlanIsCurrent c.expected_plan_identity c.current_plan_version
        × ContractIsCurrent c.expected_contract_identity c.current_contract_version)
unfolding versions_match
versions_match_iff c =
    let plan = plan_matches_iff c c.expected_plan_identity c.current_plan_version refl refl in
    let contract =
      contract_matches_iff c c.expected_contract_identity c.current_contract_version refl refl in
    (
      λ h. (plan.0 (ground arith), contract.0 (ground arith)),
      λ h. ground (arith, plan.1 h.0, contract.1 h.1),
    )

pub replay_is_inert :
    (c : TransitionCommand) {r : TransitionResult}
    → idempotency_replay c ≡ some r
    → r.should_apply ≡ false
unfolding idempotency_replay
replay_is_inert c e = ground arith

-- A current request is answered by the part behind the checks.
pub transition-checked : (c : TransitionCommand) → IsCurrent c → transition c ≡ checked_transition c
unfolding transition
transition-checked c h = ground (
  arith,
  unseen-no_replay c.prior_idempotency c refl h.unseen,
  (versions_match_iff c).1 (h.plan, h.contract),
  dec_equals_iff TaskState-discrete c.expected_state c.current_state,
)

-- What is to be applied has passed the checks.
pub applied-checked :
    (c : TransitionCommand)
    → (transition c).should_apply ≡ true
    → (idempotency_replay c ≡ none)
      × (c.expected_state ≡ c.current_state)
      × (versions_match c ≡ true)
      × (transition c ≡ checked_transition c)
unfolding transition
applied-checked c h = elim (Option-cases (idempotency_replay c)) [
  | inl e ↦ ground (arith, e, dec_equals_iff TaskState-discrete c.expected_state c.current_state)
  | inr (r, e) ↦ absurd (ground (arith, replay_is_inert c e))
]

-- To prove something of every answer, prove it of the replay, of the two refusals and of the
-- answer behind the checks.
pub transition_cases :
    (P : TransitionResult → Type 0) (c : TransitionCommand)
    → ((r : TransitionResult) → idempotency_replay c ≡ some r → P r)
    → P (denied c TransitionReason.expected_state_conflict)
    → P (denied c TransitionReason.expected_version_conflict)
    → P (checked_transition c)
    → P (transition c)
unfolding transition
transition_cases P c replay state version checked = elim (Option-cases (idempotency_replay c)) [
  | inr (r, e) ↦ rw (e, transition) (replay r e)
  | inl e ↦
      rw (e, transition)
        (elim (Bool-cases (c.expected_state != c.current_state)) [
          | inl s ↦ rw s state
          | inr s ↦
              rw s (elim (Bool-cases (versions_match c)) [
                | inl v ↦ rw v checked
                | inr v ↦ rw v version
              ])
        ])
]
