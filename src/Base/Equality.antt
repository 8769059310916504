-- ===== src/Base/Equality.antt =====
-- Python's `==` and `is` on values whose equality is decided, as one interface.
use Prim.Native.Nat.{ℕ}
use Prim.Native.String.{String}
use mathlib.Core.Path.{◌≡◌, refl}
use mathlib.Core.Logic.{◌↔◌, inl, inr}
use mathlib.Core.Bool.{Bool, true, false}
use text.Mathlib.Text.{◌==◌ as text_test}
use text.Mathlib.TextEquality.{eq_iff}
use ai_coding_agent_harness.Base.Tests.{nat_beq, nat_beq_iff, Bool-cases}

-- A type whose values a Boolean test compares.
pub record Comparable {ℓ} (A : Type ℓ) : Type ℓ where
  pub equals : A → A → Bool
  pub equals_iff : (x y : A) → (equals x y ≡ true) ↔ (x ≡ y)

abbrev pub dec_equals {ℓ} : {A : Type ℓ} → Discrete A → A → A → Bool
dec_equals decide x y = elim (decide x y) [ yes _ ↦ true | no _ ↦ false ]

pub dec_equals_iff {ℓ} :
    {A : Type ℓ} (decide : Discrete A) (x y : A) → (dec_equals decide x y ≡ true) ↔ (x ≡ y)
dec_equals_iff decide x y =
    elim (decide x y) as (λ d. ((elim d [ yes _ ↦ true | no _ ↦ false ]) ≡ true) ↔ (x ≡ y)) [
      | yes same ↦ (λ _. same, λ _. refl)
      | no differ ↦ (λ h. cc, λ same. absurd (differ same))
    ]

-- The test that a decision gives.
abbrev pub comparable_by {ℓ} : {A : Type ℓ} → Discrete A → Comparable A
comparable_by decide = record { equals = dec_equals decide; equals_iff = dec_equals_iff decide }

instance abbrev pub text_comparable : Comparable String
text_comparable = record { equals = text_test; equals_iff = eq_iff }

instance abbrev pub nat_comparable : Comparable ℕ
nat_comparable = record { equals = nat_beq; equals_iff = nat_beq_iff }

infix 50 ◌!=◌ ◌==◌
abbrev pub ◌!=◌ {ℓ} : {A : Type ℓ} ⦃how : Comparable A⦄ → A → A → Bool
◌!=◌ ⦃how⦄ x y = elim (how.equals x y) [ true ↦ false | false ↦ true ]

abbrev pub ◌==◌ {ℓ} : {A : Type ℓ} ⦃how : Comparable A⦄ → A → A → Bool
◌==◌ ⦃how⦄ x y = how.equals x y

unfoldable pub String-discrete : Discrete String
String-discrete s t = elim (Bool-cases (text_test s t)) [
  | inl same ↦ yes ((eq_iff s t).0 same)
  | inr other ↦ no (λ e. cc ((eq_iff s t).1 e, other))
]

pub text_equals_iff : (s t : String) → ((s == t) ≡ true) ↔ (s ≡ t)
text_equals_iff s t = eq_iff s t

pub same_iff {ℓ} : {A : Type ℓ} ⦃how : Comparable A⦄ (x y : A) → ((x == y) ≡ true) ↔ (x ≡ y)
same_iff ⦃how⦄ x y = how.equals_iff x y
