-- ===== src/Domain/Budgets/Limits.antt =====
-- What a constructed `RunLimits` guarantees, and where a validated mapping has its values from.
use ai_coding_agent_harness.Base.{
  Bool-cases, ltb, ℕ, ◌≤◌, ◌<◌, ◌≡◌, ◌⊎◌, inl, inr, Bool, true, false, Option, some, [], ◌∷◌, arith,
  all, any, Object, exact, Option-cases, dec_equals_iff,
}
use ai_coding_agent_harness.Base.Int.{ℤ, pos}
use ai_coding_agent_harness.Domain.Budgets.{
  BudgetDimension, BudgetDimension-discrete, dimensions, DictKey, Dict, Amounts, nonnegative,
  key_equals, covers_dimensions, normalize, amount, has_amount, closed_limits, RunLimits, limits_of,
  run_limits,
}

-- A test that every dimension passes is passed by each.
pub all-dimensions :
    (p : BudgetDimension → Bool) (d : BudgetDimension) → all p dimensions ≡ true → p d ≡ true
all-dimensions p BudgetDimension.agent_rounds h = ground arith
all-dimensions p _ h = ground arith

pub any_dimension :
    (p : BudgetDimension → Bool) (d : BudgetDimension) → any p dimensions ≡ false → p d ≡ false
any_dimension p BudgetDimension.agent_rounds h = ground arith
any_dimension p _ h = ground arith

-- The dictionary has the entry `d: n` under the member of the enumeration itself.
abbrev pub HasEntry : Dict → BudgetDimension → ℕ → Type 0
HasEntry [] d n = ⊥
HasEntry ((k, v) ∷ m) d n = ((k ≡ DictKey.dimension d) × (v ≡ exact (pos n))) ⊎ HasEntry m d n

nonnegative_exact : (v : Object ℤ) {n : ℕ} → nonnegative v ≡ some n → v ≡ exact (pos n)
nonnegative_exact v h = ground arith

normalize-HasEntry :
    (value : Dict) (m : Amounts) (d : BudgetDimension)
    → normalize value ≡ some m
    → has_amount m d ≡ true
    → HasEntry value d (amount m d)
unfolding normalize has_amount amount
normalize-HasEntry [] m d e h = ground arith
normalize-HasEntry ((DictKey.dimension k, v) ∷ rest) m d e h = elim (Option-cases (nonnegative v)) [
  | inl bad ↦ absurd (ground arith)
  | inr (n, good) ↦ elim (Option-cases (normalize rest)) [
    | inl bad ↦ absurd (ground arith)
    | inr (m', more) ↦ ground (
      arith,
      dec_equals_iff BudgetDimension-discrete k d,
      nonnegative_exact v good,
      normalize-HasEntry rest m' d more,
    )
  ]
]
normalize-HasEntry ((DictKey.text_of k, v) ∷ rest) m d e h = absurd (ground arith)
normalize-HasEntry ((DictKey.foreign, v) ∷ rest) m d e h = absurd (ground arith)

normalize_covers :
    (value : Dict) (m : Amounts) (d : BudgetDimension)
    → normalize value ≡ some m
    → any (λ e. key_equals d e.0) value ≡ true
    → has_amount m d ≡ true
unfolding normalize has_amount
normalize_covers [] m d e h = absurd (ground arith)
normalize_covers ((DictKey.dimension k, v) ∷ rest) m d e h = elim (Option-cases (normalize rest)) [
  | inl bad ↦ absurd (ground arith)
  | inr (m', more) ↦ ground (
    arith,
    dec_equals_iff BudgetDimension-discrete k d,
    dec_equals_iff BudgetDimension-discrete d k,
    normalize_covers rest m' d more,
  )
]
normalize_covers ((DictKey.text_of k, v) ∷ rest) m d e h = absurd (ground arith)
normalize_covers ((DictKey.foreign, v) ∷ rest) m d e h = absurd (ground arith)

covers-any :
    (value : Dict) (d : BudgetDimension)
    → covers_dimensions value ≡ true
    → any (λ e. key_equals d e.0) value ≡ true
unfolding covers_dimensions
covers-any value d h = all-dimensions (λ c. any (λ e. key_equals c e.0) value) d (ground arith)

-- A mapping that `_closed_limits` accepts has a non-negative integer for every dimension, under
-- the member of the enumeration itself, and the accepted mapping reads exactly that.
pub closed_limits-HasEntry :
    (value : Dict) {f : BudgetDimension → ℕ} (d : BudgetDimension)
    → closed_limits (exact value) ≡ some f
    → HasEntry value d (f d)
unfolding closed_limits
closed_limits-HasEntry value {f} d h = elim (Option-cases (normalize value)) [
  | inl bad ↦ absurd (ground arith)
  | inr (m, good) ↦ elim (Bool-cases (covers_dimensions value)) [
    | inr partial ↦ absurd (ground arith)
    | inl full ↦
        let same : amount m ≡ f = ground arith in
        rw (← same) (
          normalize-HasEntry value m d good
            (normalize_covers value m d good (covers-any value d full)))
  ]
]

limits_of_ordered :
    (soft hard : Option (BudgetDimension → ℕ)) (repeated no_progress : Option ℕ)
    {limits : RunLimits}
    → limits_of soft hard repeated no_progress ≡ some limits
    → ((d : BudgetDimension) → limits.soft_limits d ≤ limits.hard_limits d)
      × (0 < limits.repeated_failure_limit)
      × (0 < limits.no_progress_limit)
unfolding limits_of
limits_of_ordered (some soft) (some hard) (some repeated) (some no_progress) {limits} h =
    elim (Bool-cases (any (λ d. ltb (hard d) (soft d)) dimensions)) [
      | inl bad ↦ absurd (ground arith)
      | inr ordered ↦ (
        λ d. ground (arith, any_dimension (λ d. ltb (hard d) (soft d)) d ordered),
        ground arith,
        ground arith,
      )
    ]
limits_of_ordered _ _ _ _ h = absurd (ground arith)

-- Limits that the constructor accepts are ordered, soft at most hard in every dimension, and its
-- two counters are positive.
pub run_limits_ordered :
    (soft hard : Object Dict) (repeated no_progress : Object ℤ) {limits : RunLimits}
    → run_limits soft hard repeated no_progress ≡ some limits
    → ((d : BudgetDimension) → limits.soft_limits d ≤ limits.hard_limits d)
      × (0 < limits.repeated_failure_limit)
      × (0 < limits.no_progress_limit)
unfolding run_limits
run_limits_ordered soft hard repeated no_progress h =
    limits_of_ordered (closed_limits soft) (closed_limits hard) (nonnegative repeated)
      (nonnegative no_progress) h
