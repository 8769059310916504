-- ===== src/Domain/StateMachine/Complete.antt =====
-- Every legal move of a current request is made, and only those: `StateMachine.transition`
-- implements the specification.
use ai_coding_agent_harness.Base.{◌≡◌, ◌↔◌, Bool, true, false, not, List, [], ◌∷◌, arith, any, All}
use ai_coding_agent_harness.Domain.Enums.{TaskState, terminal_states}
use ai_coding_agent_harness.Domain.Models.{TransitionCommand, TransitionResult}
use ai_coding_agent_harness.Domain.Transitions.{required_preconditions}
use ai_coding_agent_harness.Domain.StateMachine.{
  transition, table_transition, cancel, block, fail, checked_transition,
}
use ai_coding_agent_harness.Domain.StateMachine.Branches.{
  checked-uncertain, checked-cancel, checked-block, checked-fail, checked-table, transition-checked,
}
use ai_coding_agent_harness.Domain.StateMachine.Sound.{transition_sound}
use ai_coding_agent_harness.Domain.StateMachine.Spec.{IsCurrent, Moves}

-- The result moves the task to `t`.
abbrev pub MovesTo : TransitionResult → TaskState → Type 0
MovesTo r t = (r.should_apply ≡ true) × (r.target ≡ t)

any-not_of_All : (l : List Bool) → All (λ b. b ≡ true) l → any not l ≡ false
any-not_of_All [] h = ground arith
any-not_of_All (b ∷ l) h = ground (arith, any-not_of_All l h.1)

checked_complete :
    (c : TransitionCommand) (t : TaskState)
    → terminal_states c.current_state ≡ false
    → Moves c t
    → MovesTo (checked_transition c) t
unfolding cancel block fail table_transition
checked_complete c t live (Moves.uncertain u ne e) =
    rw (checked-uncertain c live u ne) (ground arith)
checked_complete c t live (Moves.cancelled u tr ne clean e) =
    rw (checked-cancel c live u tr) (ground arith)
checked_complete c t live (Moves.blocked u tr reason r src active clean e) =
    rw (checked-block c live u tr) (ground arith)
checked_complete c t live (Moves.failed u tr reason r src active clean e) =
    rw (checked-fail c live u tr) (ground arith)
checked_complete c t live (Moves.by_table u o e pre) =
    rw (checked-table c live u o)
      (ground (arith, any-not_of_All (required_preconditions c.trigger c.preconditions) pre))

-- `transition` moves the task to `t` exactly when the request is current (its key is unseen, its
-- expected state and versions are the current ones, the task is not terminal) and the move to
-- `t` is one of the legal ones.
pub transition_iff :
    (c : TransitionCommand) (t : TaskState) → MovesTo (transition c) t ↔ (IsCurrent c × Moves c t)
transition_iff c t = (
  λ h. let (current, moves) = transition_sound c h.0 in (current, rw h.1 at moves),
  λ h. rw (transition-checked c h.0) (checked_complete c t h.0.live h.1),
)
