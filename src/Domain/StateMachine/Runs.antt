-- ===== src/Domain/StateMachine/Runs.antt =====
-- What holds of a task over a whole run: requests that follow one another, each made in the
-- state that the last one left.
use ai_coding_agent_harness.Base.{
  ◌∙◌, ◌≢◌, ◌++◌, refl, ap, sym, ◌≡◌, ◌⊎◌, true, some, List, [], ◌∷◌, arith, All,
}
use ai_coding_agent_harness.Domain.Enums.{TaskState, TransitionTrigger}
use ai_coding_agent_harness.Domain.StateMachine.Sound.{transition_sound}
use ai_coding_agent_harness.Domain.StateMachine.Spec.{Moves}
use ai_coding_agent_harness.Domain.Models.{TransitionCommand, TransitionPreconditions}
use ai_coding_agent_harness.Domain.Transitions.{transitions, required_preconditions}
use ai_coding_agent_harness.Domain.StateMachine.{transition}

-- The requests lead from one state to the other, every one of them applied.
abbrev pub Run : TaskState → List TransitionCommand → TaskState → Type 0
Run s [] t = s ≡ t
Run s (c ∷ cs) t =
    (c.current_state ≡ s) × ((transition c).should_apply ≡ true) × Run (transition c).target cs t

-- Some request of the run has the property.
abbrev pub Some : (TransitionCommand → Type 0) → List TransitionCommand → Type 0
Some P [] = ⊥
Some P (c ∷ cs) = P c ⊎ Some P cs

-- A confirmed apply: the plan, the change set and the user's confirmation were checked.
pub record ConfirmsApply (c : TransitionCommand) : Type 0 where
  pub trigger : c.trigger ≡ TransitionTrigger.confirm_apply
  pub frozen : c.preconditions.frozen_checks_passed ≡ true
  pub changeset : c.preconditions.changeset_ready ≡ true
  pub confirmation : c.preconditions.apply_confirmation_valid ≡ true

-- The write-back was verified.
pub record VerifiesWriteback (c : TransitionCommand) : Type 0 where
  pub trigger : c.trigger ≡ TransitionTrigger.apply_succeeded
  pub writeback : c.preconditions.writeback_verified ≡ true

-- The acceptance conditions hold and the change set is ready.
pub record Accepts (c : TransitionCommand) : Type 0 where
  pub trigger :
      (c.trigger ≡ TransitionTrigger.verification_passed)
      ⊎ (c.trigger ≡ TransitionTrigger.confirm_user_acceptance)
  pub acceptance : c.preconditions.acceptance_ready ≡ true
  pub changeset : c.preconditions.changeset_ready ≡ true

table_into_completed :
    (s : TaskState) (t : TransitionTrigger) (p : TransitionPreconditions)
    → transitions s t ≡ some TaskState.completed
    → All (λ b. b ≡ true) (required_preconditions t p)
    → (s ≡ TaskState.applying)
      × (t ≡ TransitionTrigger.apply_succeeded)
      × (p.writeback_verified ≡ true)
unfolding transitions required_preconditions
table_into_completed s t p e h = ground arith

table_into_applying :
    (s : TaskState) (t : TransitionTrigger) (p : TransitionPreconditions)
    → transitions s t ≡ some TaskState.applying
    → All (λ b. b ≡ true) (required_preconditions t p)
    → (s ≡ TaskState.ready_to_apply)
      × (t ≡ TransitionTrigger.confirm_apply)
      × (p.frozen_checks_passed ≡ true)
      × (p.changeset_ready ≡ true)
      × (p.apply_confirmation_valid ≡ true)
unfolding transitions required_preconditions
table_into_applying s t p e h = ground arith

table_into_ready_to_apply :
    (s : TaskState) (t : TransitionTrigger) (p : TransitionPreconditions)
    → transitions s t ≡ some TaskState.ready_to_apply
    → All (λ b. b ≡ true) (required_preconditions t p)
    → ((t ≡ TransitionTrigger.verification_passed)
        ⊎ (t ≡ TransitionTrigger.confirm_user_acceptance))
      × (p.acceptance_ready ≡ true)
      × (p.changeset_ready ≡ true)
unfolding transitions required_preconditions
table_into_ready_to_apply s t p e h = ground arith

into_completed :
    (c : TransitionCommand) (t : TaskState)
    → t ≡ TaskState.completed
    → Moves c t
    → (c.current_state ≡ TaskState.applying) × VerifiesWriteback c
into_completed c t q (Moves.uncertain u ne e) = absurd (ground arith)
into_completed c t q (Moves.cancelled u tr ne clean e) = absurd (ground arith)
into_completed c t q (Moves.blocked u tr reason r src active clean e) = absurd (ground arith)
into_completed c t q (Moves.failed u tr reason r src active clean e) = absurd (ground arith)
into_completed c t q (Moves.by_table u o e pre) =
    let (from, tr, w) =
      table_into_completed c.current_state c.trigger c.preconditions (rw q at e) pre in
    (from, record { trigger = tr; writeback = w })

into_applying :
    (c : TransitionCommand) (t : TaskState)
    → t ≡ TaskState.applying
    → Moves c t
    → (c.current_state ≡ TaskState.ready_to_apply) × ConfirmsApply c
into_applying c t q (Moves.uncertain u ne e) = absurd (ground arith)
into_applying c t q (Moves.cancelled u tr ne clean e) = absurd (ground arith)
into_applying c t q (Moves.blocked u tr reason r src active clean e) = absurd (ground arith)
into_applying c t q (Moves.failed u tr reason r src active clean e) = absurd (ground arith)
into_applying c t q (Moves.by_table u o e pre) =
    let (from, tr, f, s, a) =
      table_into_applying c.current_state c.trigger c.preconditions (rw q at e) pre in
    (from, record { trigger = tr; frozen = f; changeset = s; confirmation = a })

into_ready_to_apply :
    (c : TransitionCommand) (t : TaskState) → t ≡ TaskState.ready_to_apply → Moves c t → Accepts c
into_ready_to_apply c t q (Moves.uncertain u ne e) = absurd (ground arith)
into_ready_to_apply c t q (Moves.cancelled u tr ne clean e) = absurd (ground arith)
into_ready_to_apply c t q (Moves.blocked u tr reason r src active clean e) = absurd (ground arith)
into_ready_to_apply c t q (Moves.failed u tr reason r src active clean e) = absurd (ground arith)
into_ready_to_apply c t q (Moves.by_table u o e pre) =
    let (tr, a, s) =
      table_into_ready_to_apply c.current_state c.trigger c.preconditions (rw q at e) pre in
    record { trigger = tr; acceptance = a; changeset = s }

-- The last request of a run moved the task to the end of the run.
last_step :
    (cs : List TransitionCommand) (c : TransitionCommand) (s t : TaskState)
    → Run s (c ∷ cs) t
    → (before : List TransitionCommand) × (last : TransitionCommand) × (c ∷ cs
        ≡ before ++ last ∷ [])
      × Run s before last.current_state
      × Moves last t
last_step [] c s t (from, applied, ends) =
    ([], c, refl, sym from, rw ends at (transition_sound c applied).1)
last_step (d ∷ cs) c s t (from, applied, rest) =
    let (before, last, split, run, moves) = last_step cs d (transition c).target t rest in
    (c ∷ before, last, ap (λ l. c ∷ l) split, (from, applied, run), moves)

last_step_of :
    (s t : TaskState) (cs : List TransitionCommand)
    → s ≢ t
    → Run s cs t
    → (before : List TransitionCommand) × (last : TransitionCommand) × (cs ≡ before ++ last ∷ [])
      × Run s before last.current_state
      × Moves last t
last_step_of s t [] ne r = absurd (ne r)
last_step_of s t (c ∷ cs) ne r = last_step cs c s t r

-- A task that starts as a draft is completed only by a run whose last three requests are, in
-- this order, one that found the acceptance conditions to hold with the change set ready, one
-- that confirmed the apply with the frozen checks passed, the change set ready and a valid
-- confirmation, and one that verified the write-back.
pub completed_needs_evidence :
    (cs : List TransitionCommand)
    → Run TaskState.draft cs TaskState.completed
    → (before : List TransitionCommand) × (accepts confirms verifies : TransitionCommand) × (cs
        ≡ ((before ++ accepts ∷ []) ++ confirms ∷ []) ++ verifies ∷ [])
      × Accepts accepts
      × ConfirmsApply confirms
      × VerifiesWriteback verifies
completed_needs_evidence cs r =
    let (b, verifies, split, run, moves) =
      last_step_of TaskState.draft TaskState.completed cs (λ e. cc) r in
    let (applying, verified) = into_completed verifies TaskState.completed refl moves in
    let (b', confirms, split', run', moves') =
      last_step_of TaskState.draft TaskState.applying b (λ e. cc) (rw applying at run) in
    let (ready, confirmed) = into_applying confirms TaskState.applying refl moves' in
    let (b'', accepts, split'', _, moves'') =
      last_step_of TaskState.draft TaskState.ready_to_apply b' (λ e. cc) (rw ready at run') in
    (
      b'',
      accepts,
      confirms,
      verifies,
      split ∙ ap (λ l. l ++ verifies ∷ []) (split' ∙ ap (λ l. l ++ confirms ∷ []) split''),
      into_ready_to_apply accepts TaskState.ready_to_apply refl moves'',
      confirmed,
      verified,
    )
