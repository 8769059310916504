-- ===== src/Domain/Approvals/Fields.antt =====
-- The tests of a field that the bindings of an approval share, and what they say.
use mathlib.Core.Path.{subst}
use ai_coding_agent_harness.Base.{
  absent, other, holds, exact, Object, sym, ◌∙◌, not, ◌||◌, nat_comparable, ℕ, String, ◌≡◌, ◌≢◌,
  ◌⊎◌, ◌↔◌, refl, inl, inr, Bool, true, false, Option, none, some, List, [], ◌∷◌, all, nonempty,
  All, arith, and_iff, true_iff, text_equals_iff, ap, text_comparable,
}
use ai_coding_agent_harness.Base.Int.{ℤ, pos, negsuc, leb_ℤ}
use ai_coding_agent_harness.Domain.Enums.{task_state_eq}
use ai_coding_agent_harness.Domain.ApprovalModels.{texts_eq}
use ai_coding_agent_harness.Domain.Approvals.{present, is_some_text}

-- The tests that the bindings share.
abbrev pub IsGiven : {A : Type 0} → Option A → Type 0
IsGiven {A} o = (a : A) × (o ≡ some a)

pub IsGiven-iff : {A : Type 0} (o : Option A) → (present o ≡ true) ↔ IsGiven o
IsGiven-iff none = (λ h. absurd (ground arith), λ (a, e). absurd (ground arith))
IsGiven-iff (some a) = (λ h. (a, refl), λ h. refl)

pub missing_iff : {A : Type 0} (o : Option A) → (not (present o) ≡ true) ↔ (o ≡ none)
missing_iff none = (λ h. refl, λ h. refl)
missing_iff (some a) = (λ h. absurd (ground arith), λ h. absurd (ground arith))

pub some_text_iff : (o : Option String) (t : String) → (is_some_text o t ≡ true) ↔ (o ≡ some t)
some_text_iff none t = (λ h. absurd (ground arith), λ h. absurd (ground arith))
some_text_iff (some s) t =
    (λ h. ap some ((text_equals_iff s t).0 h), λ e. (text_equals_iff s t).1 (ground arith))

pub nonempty_iff : {A : Type 0} (xs : List A) → (nonempty xs ≡ true) ↔ (xs ≢ [])
nonempty_iff [] = (λ h. absurd (ground arith), λ h. absurd (h refl))
nonempty_iff (x ∷ xs) = (λ h e. absurd (ground arith), λ h. refl)

pub all_iff :
    {A : Type 0} {P : A → Type 0} (p : A → Bool)
    → ((x : A) → (p x ≡ true) ↔ P x)
    → (xs : List A) → (all p xs ≡ true) ↔ All P xs
all_iff p each [] = (λ h. tt, λ h. refl)
all_iff p each (x ∷ xs) = (
  λ h. ((each x).0 (ground arith), (all_iff p each xs).0 (ground arith)),
  λ (here, rest).
      (and_iff (true_iff (p x)) (true_iff (all p xs))).1
        ((each x).1 here, (all_iff p each xs).1 rest),
)

pub or_iff :
    {P Q : Type 0} {p q : Bool} → (p ≡ true) ↔ P → (q ≡ true) ↔ Q → ((p || q) ≡ true) ↔ (P ⊎ Q)
or_iff {p = true} first second = (λ h. inl (first.0 refl), λ h. refl)
or_iff {p = false} first second = (
  λ h. inr (second.0 h),
  λ h. elim h [ inl a ↦ absurd (ground (arith, first.1 a)) | inr b ↦ second.1 b ],
)

abbrev pub IsNatural : ℤ → Type 0
IsNatural z = (n : ℕ) × (z ≡ pos n)

pub IsNatural-iff : (z : ℤ) → (leb_ℤ (pos 0) z ≡ true) ↔ IsNatural z
IsNatural-iff (pos n) = (λ h. (n, refl), λ h. ground arith)
IsNatural-iff (negsuc n) = (λ h. absurd (ground arith), λ (m, e). absurd (ground arith))

-- A test of the value behind an object.
pub holds_iff {ℓ} :
    {A : Type ℓ} {P : A → Type ℓ} (p : A → Bool) (o : Object A)
    → ((a : A) → (p a ≡ true) ↔ P a)
    → (holds p o ≡ true) ↔ ((a : A) × ((o ≡ exact a) × P a))
holds_iff p (exact a) each = (
  λ h. (a, (refl, (each a).0 h)),
  λ (b, (same, proof)). subst (λ x. holds p x ≡ true) (sym same) ((each b).1 proof),
)
holds_iff p absent each = (λ h. absurd (ground arith), λ (b, (same, proof)). absurd (ground arith))
holds_iff p other each = (λ h. absurd (ground arith), λ (b, (same, proof)). absurd (ground arith))

pub holds_the_iff {ℓ} :
    {A : Type ℓ} (p : A → Bool) (o : Object A) (b : A)
    → ((a : A) → (p a ≡ true) ↔ (a ≡ b))
    → (holds p o ≡ true) ↔ (o ≡ exact b)
holds_the_iff p o b each = (
  λ h. let (a, (same, e)) = (holds_iff p o each).0 h in same ∙ ap exact e,
  λ same. (holds_iff p o each).1 (b, (same, refl)),
)
