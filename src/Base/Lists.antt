-- ===== src/Base/Lists.antt =====
-- Lists measured by native numbers, and Python's `all` and `any` over them.
use Prim.Native.Nat.{ℕ, suc, ◌+◌}
use mathlib.Core.Path.{◌≡◌, refl}
use mathlib.Core.Logic.{inl, inr}
use native.Mathlib.Omega.{arith}
use ai_coding_agent_harness.Base.Tests.{Bool-cases, and_iff, true_iff}
use mathlib.Core.Bool.{Bool, true, false, ◌&&◌, ◌||◌}
use mathlib.Core.Option.{Option, none, some}
use mathlib.Core.List.{reverse, reverse_aux, reverse-append, List, [], ◌∷◌, ◌++◌, map}

module _ {ℓ} {A : Type ℓ} where
  abbrev pub length : List A → ℕ
  length [] = 0
  length (x ∷ xs) = suc (length xs)

  -- `all(p(x) for x in xs)`
  abbrev pub all : (A → Bool) → List A → Bool
  all p [] = true
  all p (x ∷ xs) = p x && all p xs

  -- `any(p(x) for x in xs)`
  abbrev pub any : (A → Bool) → List A → Bool
  any p [] = false
  any p (x ∷ xs) = p x || any p xs

  -- `bool(xs)`
  abbrev pub nonempty : List A → Bool
  nonempty [] = false
  nonempty (x ∷ xs) = true

-- `next((x for x in xs if p(x)), None)`
unfoldable pub find_first {ℓ} : {A : Type ℓ} → (A → Bool) → List A → Option A
find_first p [] = none
find_first p (x ∷ xs) = elim (p x) [ true ↦ some x | false ↦ find_first p xs ]

-- The items that pass a test, in order.
unfoldable pub select {ℓ} : {A : Type ℓ} → (A → Bool) → List A → List A
select p [] = []
select p (x ∷ xs) = elim (p x) [ true ↦ x ∷ select p xs | false ↦ select p xs ]

-- A predicate on every item.
abbrev pub All {ℓ κ} : {A : Type ℓ} → (A → Type κ) → List A → Type κ
All P [] = Unit
All P (x ∷ xs) = P x × All P xs

module _ {A B : Type 0} (R : A → B → Type 0) where
  -- The two lists correspond, item by item.
  abbrev pub Corresponds : List A → List B → Type 0
  Corresponds [] [] = Unit
  Corresponds (x ∷ xs) (y ∷ ys) = R x y × Corresponds xs ys
  Corresponds _ _ = ⊥

  pub Corresponds-map {μ} :
      {Q : A → Type μ} (f : A → B)
      → ((a : A) → Q a → R a (f a))
      → (xs : List A) → All Q xs
      → Corresponds xs (map f xs)
  Corresponds-map f each [] every = tt
  Corresponds-map f each (x ∷ xs) (here, more) = (each x here, Corresponds-map f each xs more)

-- What a search finds passes a test that every item passes.
pub find_first-all {ℓ} :
    {A : Type ℓ} (p q : A → Bool) (xs : List A) {c : A}
    → find_first p xs ≡ some c
    → all q xs ≡ true
    → q c ≡ true
unfolding find_first
find_first-all p q [] found every = absurd (ground arith)
find_first-all p q (x ∷ xs) found every = elim (Bool-cases (p x)) [
  | inl here ↦ ground arith
  | inr there ↦ find_first-all p q xs (ground arith) (ground arith)
]

pub all-map {ℓ κ} :
    {A : Type ℓ} {B : Type κ} (f : A → B) (p : A → Bool) (q : B → Bool)
    → ((a : A) → p a ≡ true → q (f a) ≡ true)
    → (xs : List A) → all p xs ≡ true
    → all q (map f xs) ≡ true
all-map f p q keep [] every = refl
all-map f p q keep (x ∷ xs) every =
    (and_iff (true_iff (q (f x))) (true_iff (all q (map f xs)))).1
      (keep x (ground arith), all-map f p q keep xs (ground arith))

pub all-append {ℓ} :
    {A : Type ℓ} (p : A → Bool) (xs ys : List A)
    → all p xs ≡ true
    → all p ys ≡ true
    → all p (xs ++ ys) ≡ true
all-append p [] ys left right = right
all-append p (x ∷ xs) ys left right =
    (and_iff (true_iff (p x)) (true_iff (all p (xs ++ ys)))).1
      (ground arith, all-append p xs ys (ground arith) right)

pub reverse-snoc {ℓ} :
    {A : Type ℓ} (xs : List A) (x : A) → reverse (xs ++ (x ∷ [])) ≡ x ∷ reverse xs
unfolding reverse reverse_aux
reverse-snoc xs x = reverse-append xs (x ∷ [])

pub find_first-here {ℓ} :
    {A : Type ℓ} (p : A → Bool) (x : A) (xs : List A) → p x ≡ true → find_first p (x ∷ xs) ≡ some x
unfolding find_first
find_first-here p x xs h = ground arith

-- An item that fails the test adds nothing to a selection.
pub select-snoc {ℓ} :
    {A : Type ℓ} (p : A → Bool) (xs : List A) (x : A)
    → p x ≡ false
    → select p (xs ++ (x ∷ [])) ≡ select p xs
unfolding select
select-snoc p [] x fails = ground arith
select-snoc p (y ∷ ys) x fails =
    let rest = select-snoc p ys x fails in
    elim (Bool-cases (p y)) [ inl here ↦ ground arith | inr there ↦ ground arith ]

pub any-snoc {ℓ} :
    {A : Type ℓ} (p : A → Bool) (xs : List A) (x : A)
    → any p xs ≡ true
    → any p (xs ++ (x ∷ [])) ≡ true
any-snoc p [] x passes = absurd (ground arith)
any-snoc p (y ∷ ys) x passes = elim (Bool-cases (p y)) [
  | inl here ↦ ground arith
  | inr there ↦ let rest = any-snoc p ys x (ground arith) in ground arith
]

pub all-same {ℓ} :
    {A : Type ℓ} (p q : A → Bool) (xs : List A) → ((x : A) → p x ≡ q x) → all p xs ≡ all q xs
all-same p q [] same = refl
all-same p q (x ∷ xs) same =
    let here = same x in let rest = all-same p q xs same in simp (here, rest)

pub all-All {ℓ κ} :
    {A : Type ℓ} {P : A → Type κ} (p : A → Bool)
    → ((x : A) → p x ≡ true → P x)
    → (xs : List A) → all p xs ≡ true
    → All P xs
all-All p each [] passes = tt
all-All p each (x ∷ xs) passes = (each x (ground arith), all-All p each xs (ground arith))

pub length-snoc {ℓ} : {A : Type ℓ} (xs : List A) (x : A) → length (xs ++ (x ∷ [])) ≡ length xs + 1
length-snoc [] x = refl
length-snoc (y ∷ ys) x = let more = length-snoc ys x in omega arith

pub all-both {ℓ} :
    {A : Type ℓ} (p q : A → Bool) (xs : List A)
    → all p xs ≡ true
    → all q xs ≡ true
    → all (λ x. p x && q x) xs ≡ true
all-both p q [] first second = refl
all-both p q (x ∷ xs) first second =
    let rest = all-both p q xs (ground arith) (ground arith) in ground arith
