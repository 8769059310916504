-- ===== src/Base/Dynamic.antt =====
-- A Python value as a function that tests `type(value) is A` sees it.
use mathlib.Core.Path.{◌≡◌, refl}
use mathlib.Core.Logic.{◌⊎◌, inl, inr}
use mathlib.Core.Bool.{Bool, true, false}

-- `exact a` has the type `A` itself, `absent` is `None`, `other` is anything else.
pub data Object {ℓ} (A : Type ℓ) : Type ℓ where
  exact : A → Object A
  absent : Object A
  other : Object A

module _ {ℓ} {A : Type ℓ} where
  -- `type(value) is A`
  abbrev pub is_exact : Object A → Bool
  is_exact (exact a) = true
  is_exact _ = false

  -- `type(value) is A and p(value)`
  abbrev pub holds : (A → Bool) → Object A → Bool
  holds p (exact a) = p a
  holds p _ = false

  pub Object-cases : (o : Object A) → ((a : A) × (o ≡ exact a)) ⊎ (is_exact o ≡ false)
  Object-cases (exact a) = inl (a, refl)
  Object-cases absent = inr refl
  Object-cases other = inr refl
