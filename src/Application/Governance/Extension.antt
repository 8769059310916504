-- ===== src/Application/Governance/Extension.antt =====
-- What activating a budget extension comes to.
use ai_coding_agent_harness.Base.{
  ◌∙◌, ◌==◌, ℕ, ◌≡◌, refl, ◌⊎◌, inl, inr, Bool, true, false, some, List, [], ◌∷◌, arith, all, All,
  Bool-cases, Option-cases, nat_comparable, same_iff,
}
use ai_coding_agent_harness.Domain.Budgets.{
  BudgetDimension, BudgetVersion, Amounts, amount, has_amount,
}
use ai_coding_agent_harness.Domain.ApprovalModels.{BudgetItem}
use ai_coding_agent_harness.Application.Governance.{dimension_agrees, agrees, limits_agree, members}

-- The approval's three lists say of a dimension what the two versions have.
abbrev pub AgreesAt :
    BudgetVersion → BudgetVersion → Amounts → Amounts → Amounts → BudgetDimension → Type 0
AgreesAt current proposed old new hard d =
    (amount old d ≡ current.limits.soft_limits d)
    × (amount new d ≡ proposed.limits.soft_limits d)
    × (amount hard d ≡ current.limits.hard_limits d)

agrees_cases :
    (valid : Bool) (m : Amounts) (d : BudgetDimension) (n : ℕ)
    → has_amount m d ≡ true
    → (agrees valid m d n ≡ some false)
      ⊎ ((valid ≡ true) × (agrees valid m d n ≡ some true) × (amount m d ≡ n))
unfolding agrees
agrees_cases false m d n h = inl refl
agrees_cases true m d n h = elim (Bool-cases (amount m d == n)) [
  | inl same ↦ inr (refl, ground arith, (same_iff (amount m d) n).0 same)
  | inr other ↦ inl (ground arith)
]

module _ (current proposed : BudgetVersion) (old new hard : Amounts) where
  dimension_agrees_cases :
      (d : BudgetDimension) (valid : Bool)
      → (has_amount old d ≡ true) × (has_amount new d ≡ true) × (has_amount hard d ≡ true)
      → (dimension_agrees current proposed old new hard d valid ≡ some false)
        ⊎ ((valid ≡ true)
            × (dimension_agrees current proposed old new hard d valid ≡ some true)
            × AgreesAt current proposed old new hard d)
  unfolding dimension_agrees agrees
  dimension_agrees_cases d false keys = inl refl
  dimension_agrees_cases d true (in_old, in_new, in_hard) = ground (
    arith,
    same_iff (amount old d) (current.limits.soft_limits d),
    same_iff (amount new d) (proposed.limits.soft_limits d),
    same_iff (amount hard d) (current.limits.hard_limits d),
  )

  -- Once a test has failed, nothing is looked up.
  pub failed_stays :
      (items : List BudgetItem)
      → limits_agree current proposed old new hard items false ≡ some false
  unfolding limits_agree dimension_agrees agrees
  failed_stays [] = refl
  failed_stays (BudgetItem.member d ∷ rest) = failed_stays rest
  failed_stays (BudgetItem.named d ∷ rest) = failed_stays rest
  failed_stays (BudgetItem.foreign k ∷ rest) = failed_stays rest

  limits_agree_next :
      (d : BudgetDimension) (rest : List BudgetItem) (valid b : Bool)
      → dimension_agrees current proposed old new hard d valid ≡ some b
      → limits_agree current proposed old new hard (BudgetItem.member d ∷ rest) valid
        ≡ limits_agree current proposed old new hard rest b
  unfolding limits_agree
  limits_agree_next d rest valid b h = ground arith

  -- Over dictionaries that have the dimensions, the loop ends without a `KeyError`, and it
  -- accepts only what agrees.
  pub limits_agree_cases :
      (items : List BudgetItem) (ds : List BudgetDimension) (valid : Bool)
      → members items ≡ some ds
      → (all (has_amount old) ds ≡ true)
        × (all (has_amount new) ds ≡ true)
        × (all (has_amount hard) ds ≡ true)
      → (limits_agree current proposed old new hard items valid ≡ some false)
        ⊎ ((valid ≡ true)
            × (limits_agree current proposed old new hard items valid ≡ some true)
            × All (AgreesAt current proposed old new hard) ds)
  unfolding members limits_agree
  limits_agree_cases [] [] true e keys = inr (refl, refl, tt)
  limits_agree_cases [] [] false e keys = inl refl
  limits_agree_cases [] (d ∷ ds) valid e keys = absurd (ground arith)
  limits_agree_cases (BudgetItem.named c ∷ rest) ds valid e keys = absurd (ground arith)
  limits_agree_cases (BudgetItem.foreign k ∷ rest) ds valid e keys = absurd (ground arith)
  limits_agree_cases (BudgetItem.member d ∷ rest) [] valid e keys =
      elim (Option-cases (members rest)) [
        | inl bad ↦ absurd (ground arith)
        | inr (ds', more) ↦ absurd (ground arith)
      ]
  limits_agree_cases (BudgetItem.member d ∷ rest) (c ∷ ds) valid e (in_old, in_new, in_hard) =
      elim (Option-cases (members rest)) [
        | inl bad ↦ absurd (ground arith)
        | inr (ds', more) ↦
            let same : d ≡ c = ground arith in
            let tail : members rest ≡ some ds = ground arith in
            let here = dimension_agrees_cases d valid (ground arith, ground arith, ground arith) in
            let later =
              limits_agree_cases rest ds true tail (ground arith, ground arith, ground arith) in
            elim here [
              | inl failed ↦ inl (limits_agree_next d rest valid false failed ∙ failed_stays rest)
              | inr (start, ok, agree) ↦ elim later [
                | inl failed ↦ inl (limits_agree_next d rest valid true ok ∙ failed)
                | inr (_, all_ok, more_agree) ↦ inr (
                  start,
                  limits_agree_next d rest valid true ok ∙ all_ok,
                  (rw (← same) agree, more_agree),
                )
              ]
            ]
      ]
