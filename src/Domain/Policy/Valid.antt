-- ===== src/Domain/Policy/Valid.antt =====
-- The contexts that the engine accepts.
use ai_coding_agent_harness.Base.{
  any, not, String, ◌≡◌, ◌↔◌, refl, Bool, true, false, List, [], ◌∷◌, arith, Object, exact, absent,
  other, All, is_exact, holds, dec_equals_iff,
}
use ai_coding_agent_harness.Domain.Enums.{TaskState, TaskState-discrete}
use ai_coding_agent_harness.Domain.Text.{is_digest, nonempty_text}
use ai_coding_agent_harness.Domain.Policy.{
  has_unfilled, PolicyContext, required_strings, states_agree, context_is_valid,
}

-- A text, and not the empty one.
abbrev pub IsFilled : Object String → Type 0
IsFilled (exact s) = nonempty_text s ≡ true
IsFilled absent = ⊥
IsFilled other = ⊥

abbrev pub SameState : Object TaskState → Object TaskState → Type 0
SameState (exact s) (exact t) = s ≡ t
SameState _ _ = ⊥

abbrev pub IsBool : Object Bool → Type 0
IsBool (exact b) = Unit
IsBool absent = ⊥
IsBool other = ⊥

abbrev pub IsDigest : Object String → Type 0
IsDigest (exact s) = is_digest s ≡ true
IsDigest absent = ⊥
IsDigest other = ⊥

-- Ten filled texts, a state that is the expected one, a flag and a digest.
pub record IsValidContext (context : PolicyContext) : Type 0 where
  pub task_id_filled : IsFilled context.task_id
  pub action_name_filled : IsFilled context.action_name
  pub action_identity_filled : IsFilled context.action_identity
  pub action_digest_filled : IsFilled context.action_digest
  pub target_type_filled : IsFilled context.target_type
  pub target_identity_filled : IsFilled context.target_identity
  pub plan_identity_filled : IsFilled context.plan_identity
  pub contract_identity_filled : IsFilled context.contract_identity
  pub idempotency_key_filled : IsFilled context.idempotency_key
  pub trusted_profile_filled : IsFilled context.trusted_profile
  pub state : SameState context.expected_state context.task_state
  pub flag : IsBool context.user_approval_present
  pub digest : IsDigest context.action_digest

IsFilled-of :
    (vs : List (Object String))
    → any (λ v. not (holds nonempty_text v)) vs ≡ false
    → All IsFilled vs
IsFilled-of [] h = tt
IsFilled-of (exact s ∷ vs) h = (ground arith, IsFilled-of vs (ground arith))
IsFilled-of (absent ∷ vs) h = absurd (ground arith)
IsFilled-of (other ∷ vs) h = absurd (ground arith)

none_unfilled :
    (vs : List (Object String))
    → All IsFilled vs
    → any (λ v. not (holds nonempty_text v)) vs ≡ false
none_unfilled [] h = refl
none_unfilled (exact s ∷ vs) h = ground (arith, h.0, none_unfilled vs h.1)
none_unfilled (absent ∷ vs) h = absurd h.0
none_unfilled (other ∷ vs) h = absurd h.0

states_agree_iff : (s t : Object TaskState) → (states_agree s t ≡ true) ↔ SameState s t
unfolding states_agree
states_agree_iff (exact s) (exact t) = dec_equals_iff TaskState-discrete s t
states_agree_iff (exact s) absent = (λ h. absurd (ground arith), λ h. absurd h)
states_agree_iff (exact s) other = (λ h. absurd (ground arith), λ h. absurd h)
states_agree_iff absent t = (λ h. absurd (ground arith), λ h. absurd h)
states_agree_iff other t = (λ h. absurd (ground arith), λ h. absurd h)

is_exact-IsBool : (b : Object Bool) → (is_exact b ≡ true) ↔ IsBool b
is_exact-IsBool (exact b) = (λ h. tt, λ h. refl)
is_exact-IsBool absent = (λ h. absurd (ground arith), λ h. absurd h)
is_exact-IsBool other = (λ h. absurd (ground arith), λ h. absurd h)

holds-IsDigest : (d : Object String) → (holds is_digest d ≡ true) ↔ IsDigest d
holds-IsDigest (exact d) = (λ h. h, λ h. h)
holds-IsDigest absent = (λ h. absurd (ground arith), λ h. absurd h)
holds-IsDigest other = (λ h. absurd (ground arith), λ h. absurd h)

exact_of_same : (s t : Object TaskState) → SameState s t → (is_exact s ≡ true) × (is_exact t ≡ true)
exact_of_same (exact s) (exact t) h = (refl, refl)
exact_of_same (exact s) absent h = absurd h
exact_of_same (exact s) other h = absurd h
exact_of_same absent t h = absurd h
exact_of_same other t h = absurd h

has_unfilled_iff :
    (context : PolicyContext)
    → (has_unfilled context ≡ false) ↔ All IsFilled (required_strings context)
unfolding has_unfilled
has_unfilled_iff context =
    (IsFilled-of (required_strings context), none_unfilled (required_strings context))

-- The engine accepts a context exactly when it is valid: its ten texts are texts and not empty,
-- its state is the expected one, its approval flag is a flag and its action digest is a digest.
pub context_is_valid_iff :
    (context : PolicyContext) → (context_is_valid context ≡ true) ↔ IsValidContext context
unfolding context_is_valid
context_is_valid_iff context = (
  λ h.
      let (
        task,
        (name, (action, (payload, (kind, (target, (plan, (contract, (key, (profile, _))))))))),
      ) =
        (has_unfilled_iff context).0 (ground arith) in
      record {
        task_id_filled = task;
        action_name_filled = name;
        action_identity_filled = action;
        action_digest_filled = payload;
        target_type_filled = kind;
        target_identity_filled = target;
        plan_identity_filled = plan;
        contract_identity_filled = contract;
        idempotency_key_filled = key;
        trusted_profile_filled = profile;
        state = (states_agree_iff context.expected_state context.task_state).0 (ground arith);
        flag = (is_exact-IsBool context.user_approval_present).0 (ground arith);
        digest = (holds-IsDigest context.action_digest).0 (ground arith);
      },
  λ h. ground (
    arith,
    (has_unfilled_iff context).1 (
      h.task_id_filled,
      (
        h.action_name_filled,
        (
          h.action_identity_filled,
          (
            h.action_digest_filled,
            (
              h.target_type_filled,
              (
                h.target_identity_filled,
                (
                  h.plan_identity_filled,
                  (
                    h.contract_identity_filled,
                    (h.idempotency_key_filled, (h.trusted_profile_filled, tt)),
                  ),
                ),
              ),
            ),
          ),
        ),
      ),
    ),
    exact_of_same context.expected_state context.task_state h.state,
    (states_agree_iff context.expected_state context.task_state).1 h.state,
    (is_exact-IsBool context.user_approval_present).1 h.flag,
    (holds-IsDigest context.action_digest).1 h.digest,
  ),
)
