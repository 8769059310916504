-- ===== src/Domain/StateMachine/Sound.antt =====
-- A result that is to be applied is a legal move.
use ai_coding_agent_harness.Base.{
  refl, Bool-cases, ◌≡◌, inl, inr, Option-cases, Bool, true, false, not, List, [], ◌∷◌, arith, any,
  All, dec_equals_iff, text_comparable,
}
use ai_coding_agent_harness.Domain.Enums.{
  terminal_states, TaskState, TaskState-discrete, TransitionTrigger, TransitionTrigger-discrete,
}
use ai_coding_agent_harness.Domain.Models.{TransitionCommand}
use ai_coding_agent_harness.Domain.Transitions.{required_preconditions}
use ai_coding_agent_harness.Domain.StateMachine.{
  transition, table_transition, cancel, block, fail, checked_transition,
}
use ai_coding_agent_harness.Domain.StateMachine.Branches.{
  checked-cancel, checked-block, checked-fail, checked-table, no_replay-IsUnseen,
  versions_match_iff, applied-checked,
}
use ai_coding_agent_harness.Domain.StateMachine.Spec.{IsCurrent, Moves, IsOrdinary}

All-of_any-not : (l : List Bool) → any not l ≡ false → All (λ b. b ≡ true) l
All-of_any-not [] h = tt
All-of_any-not (true ∷ l) h = (ground arith, All-of_any-not l h)
All-of_any-not (false ∷ l) h = cc

table_transition-Moves :
    (c : TransitionCommand)
    → c.uncertain_file_effect ≡ false
    → IsOrdinary c.trigger
    → (table_transition c).should_apply ≡ true
    → Moves c (table_transition c).target
unfolding table_transition
table_transition-Moves c u o h =
    Moves.by_table u o (ground arith)
      (ground (arith, All-of_any-not (required_preconditions c.trigger c.preconditions)))

cancel-Moves :
    (c : TransitionCommand)
    → c.uncertain_file_effect ≡ false
    → c.trigger ≡ TransitionTrigger.cancel_task
    → (cancel c).should_apply ≡ true
    → Moves c (cancel c).target
unfolding cancel
cancel-Moves c u o h = Moves.cancelled u o (ground arith) (ground arith) (ground arith)

block-Moves :
    (c : TransitionCommand)
    → c.uncertain_file_effect ≡ false
    → c.trigger ≡ TransitionTrigger.enter_blocked
    → (block c).should_apply ≡ true
    → Moves c (block c).target
unfolding block
block-Moves c u o h = elim (Option-cases c.blocked_reason) [
  | inl e ↦ absurd (ground arith)
  | inr (reason, e) ↦
      Moves.blocked u o reason e (ground arith) (ground arith) (ground arith) (ground arith)
]

fail-Moves :
    (c : TransitionCommand)
    → c.uncertain_file_effect ≡ false
    → c.trigger ≡ TransitionTrigger.fail_unrecoverably
    → (fail c).should_apply ≡ true
    → Moves c (fail c).target
unfolding fail
fail-Moves c u o h = elim (Option-cases c.failure_reason) [
  | inl e ↦ absurd (ground arith)
  | inr (reason, e) ↦
      Moves.failed u o reason e (ground arith) (ground arith) (ground arith) (ground arith)
]

uncertain-Moves :
    (c : TransitionCommand)
    → c.uncertain_file_effect ≡ true
    → (checked_transition c).should_apply ≡ true
    → Moves c (checked_transition c).target
unfolding checked_transition
uncertain-Moves c u h =
    let same = dec_equals_iff TaskState-discrete c.current_state TaskState.recovery_required in
    Moves.uncertain u (ground (arith, same)) (ground (arith, same))

certain-Moves :
    (c : TransitionCommand)
    → terminal_states c.current_state ≡ false
    → c.uncertain_file_effect ≡ false
    → (checked_transition c).should_apply ≡ true
    → Moves c (checked_transition c).target
certain-Moves c live u h =
    elim (TransitionTrigger-discrete c.trigger TransitionTrigger.cancel_task) [
      | yes e ↦ let b = checked-cancel c live u e in rw b (cancel-Moves c u e (rw b at h))
      | no nc ↦ elim (TransitionTrigger-discrete c.trigger TransitionTrigger.enter_blocked) [
        | yes e ↦ let b = checked-block c live u e in rw b (block-Moves c u e (rw b at h))
        | no nb ↦ elim (TransitionTrigger-discrete c.trigger TransitionTrigger.fail_unrecoverably) [
          | yes e ↦ let b = checked-fail c live u e in rw b (fail-Moves c u e (rw b at h))
          | no nf ↦
              let o : IsOrdinary c.trigger = record {
                not_cancel = nc;
                not_block = nb;
                not_fail = nf;
              } in
              let b = checked-table c live u o in rw b (table_transition-Moves c u o (rw b at h))
        ]
      ]
    ]

checked-live :
    (c : TransitionCommand)
    → (checked_transition c).should_apply ≡ true
    → terminal_states c.current_state ≡ false
unfolding checked_transition
checked-live c h = ground arith

checked-Moves :
    (c : TransitionCommand)
    → (checked_transition c).should_apply ≡ true
    → Moves c (checked_transition c).target
checked-Moves c h = elim (Bool-cases c.uncertain_file_effect) [
  | inl u ↦ uncertain-Moves c u h
  | inr u ↦ certain-Moves c (checked-live c h) u h
]

-- A result that is to be applied answers a current request, and its target is a legal move of
-- that request.
pub transition_sound :
    (c : TransitionCommand)
    → (transition c).should_apply ≡ true
    → IsCurrent c × Moves c (transition c).target
transition_sound c h =
    let (fresh, state, versions, same) = applied-checked c h in
    let checked : (checked_transition c).should_apply ≡ true = rw same at h in
    (
      record {
        unseen = no_replay-IsUnseen c.prior_idempotency c refl fresh;
        state = state;
        plan = ((versions_match_iff c).0 versions).0;
        contract = ((versions_match_iff c).0 versions).1;
        live = checked-live c checked;
      },
      rw same (checked-Moves c checked),
    )
