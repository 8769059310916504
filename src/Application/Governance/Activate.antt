-- ===== src/Application/Governance/Activate.antt =====
-- When a budget version becomes active.
use ai_coding_agent_harness.Base.Int.{pos}
use ai_coding_agent_harness.Domain.Approvals.Verdicts.{IsConsumable, consume_approval_cases}
use ai_coding_agent_harness.Domain.Approvals.Operations.{Consumption, consumed_record, result_of}
use ai_coding_agent_harness.Domain.Policy.{PolicyDecisionRecord}
use ai_coding_agent_harness.Base.{
  refl, some, true, false, inl, inr, Option, Bool, ◌&&◌, Bool-cases, String, exact, is_exact, ◌≡◌,
  ◌⊎◌, ◌≤◌, ◌<◌, List, arith, all, All, Option-cases, [], ◌∷◌, dec_equals_iff, same_iff, ◌==◌,
  nat_comparable, text_comparable, text_equals_iff,
}
use ai_coding_agent_harness.Domain.Budgets.{
  BudgetDimension, BudgetVersion, Amounts, amount, dimensions,
}
use ai_coding_agent_harness.Domain.Budgets.Limits.{all-dimensions}
use ai_coding_agent_harness.Domain.ApprovalModels.{Approval, ApprovalType, ApprovalType-discrete}
use ai_coding_agent_harness.Application.Governance.{
  ℕ, kept, activated, creation_is_permitted, Activation, activate_budget, decided_activation,
  consumed_activation, BudgetActivationResult, succession_matches, budget_binding_is_safe, members,
  extension_is_valid, extension_of, budget_pairs,
}
use ai_coding_agent_harness.Application.Governance.Extension.{
  limits_agree_cases, failed_stays, AgreesAt,
}
use ai_coding_agent_harness.Application.Governance.Creation.{
  creation_is_permitted_cases, IsSafe, IsSafe-cases,
}

-- The affected dimensions are members, and in each the proposed soft limit is within the current
-- hard limit.
abbrev pub StaysWithin : BudgetVersion → BudgetVersion → Approval → Type 0
StaysWithin current proposed a =
    (ds : List BudgetDimension) × (members a.affected_dimensions ≡ some ds)
    × All (λ d. proposed.limits.soft_limits d ≤ current.limits.hard_limits d) ds

-- The proposed version succeeds the current one of the approval's task, and has its hard limits.
abbrev pub Succeeds : BudgetVersion → BudgetVersion → Approval → Type 0
Succeeds current proposed a =
    (current.task_id ≡ proposed.task_id)
    × (proposed.task_id ≡ a.task_id)
    × (current.sequence < proposed.sequence)
    × (a.target_identity ≡ proposed.identity)
    × (a.approval_type ≡ ApprovalType.budget_approval)
    × ((d : BudgetDimension) → current.limits.hard_limits d ≡ proposed.limits.hard_limits d)

succession_matches-Succeeds :
    (current proposed : BudgetVersion) (a : Approval)
    → succession_matches current proposed a ≡ true
    → Succeeds current proposed a
unfolding succession_matches
succession_matches-Succeeds current proposed a h =
    let same_hard : all (λ d. current.limits.hard_limits d == proposed.limits.hard_limits d)
          dimensions
        ≡ true =
      ground arith in
    (
      (text_equals_iff _ _).0 (ground arith),
      (text_equals_iff _ _).0 (ground arith),
      ground arith,
      (text_equals_iff _ _).0 (ground arith),
      (dec_equals_iff ApprovalType-discrete a.approval_type ApprovalType.budget_approval).0
          (ground arith),
      λ d. (same_iff (current.limits.hard_limits d) (proposed.limits.hard_limits d)).0 (
          all-dimensions (λ d. current.limits.hard_limits d == proposed.limits.hard_limits d) d
            same_hard),
    )

within :
    (current proposed : BudgetVersion) (old new hard : Amounts) (ds : List BudgetDimension)
    → All (AgreesAt current proposed old new hard) ds
    → All (λ d. amount new d ≤ amount hard d) ds
    → All (λ d. proposed.limits.soft_limits d ≤ current.limits.hard_limits d) ds
within current proposed old new hard [] agree bounds = tt
within current proposed old new hard (d ∷ ds) (agree, more) (bound, bounds) =
    (ground arith, within current proposed old new hard ds more bounds)

extension_failed :
    (current proposed : BudgetVersion) (a : Approval)
    → extension_is_valid current proposed a false ≡ some false
unfolding extension_is_valid extension_of
extension_failed current proposed a = elim (Option-cases (budget_pairs a.old_limits)) [
  | inl bad ↦ ground arith
  | inr (old, has_old) ↦ elim (Option-cases (budget_pairs a.new_limits)) [
    | inl bad ↦ ground arith
    | inr (new, has_new) ↦ elim (Option-cases (budget_pairs a.hard_limits)) [
      | inl bad ↦ ground arith
      | inr (hard, has_hard) ↦ simp (
        has_old,
        has_new,
        has_hard,
        failed_stays current proposed old new hard a.affected_dimensions,
      )
    ]
  ]
]

extension_accepts :
    (current proposed : BudgetVersion) (a : Approval)
    → budget_binding_is_safe a ≡ true
    → (extension_is_valid current proposed a true ≡ some false)
      ⊎ ((extension_is_valid current proposed a true ≡ some true) × StaysWithin current proposed a)
unfolding extension_is_valid extension_of IsSafe
extension_accepts current proposed a safe =
    let (ds, old, new, hard, (all_members, (has_old, has_new, has_hard), keys, bounds)) =
      IsSafe-cases a safe in
    elim (limits_agree_cases current proposed old new hard a.affected_dimensions ds true all_members
      keys) [
        | inl failed ↦ inl (simp (has_old, has_new, has_hard, failed))
        | inr (_, ok, agree) ↦ inr (
          simp (has_old, has_new, has_hard, ok),
          (ds, all_members, within current proposed old new hard ds agree bounds),
        )
      ]

-- The tests end without a `KeyError`; when they hold, the versions match, the creation is
-- permitted and the extension stays within the hard limits.
module _ (record_digest : PolicyDecisionRecord → String) where
  tests_of : BudgetVersion → BudgetVersion → Approval → Consumption → Bool
  tests_of current proposed a given =
      creation_is_permitted record_digest a given
      && (is_exact given.expected_revision && succession_matches current proposed a)

  tests_cases :
      (current proposed : BudgetVersion) (a : Approval) (given : Consumption)
      → (extension_is_valid current proposed a (tests_of current proposed a given) ≡ some false)
        ⊎ ((extension_is_valid current proposed a (tests_of current proposed a given) ≡ some true)
            × Succeeds current proposed a
            × StaysWithin current proposed a)
  unfolding tests_of
  tests_cases current proposed a given = elim (Bool-cases (tests_of current proposed a given)) [
    | inr failed ↦ inl (rw failed (extension_failed current proposed a))
    | inl held ↦
        let matched = succession_matches-Succeeds current proposed a (ground arith) in
        let safe = creation_is_permitted_cases record_digest a given (ground arith) (matched.4) in
        elim (extension_accepts current proposed a safe) [
          | inl failed ↦ inl (rw held failed)
          | inr (ok, stays) ↦ inr (rw held ok, matched, stays)
        ]
  ]

  -- A result that leaves the current version and the approval as they are.
  abbrev pub KeepsCurrent : BudgetVersion → Approval → BudgetActivationResult → Type 0
  KeepsCurrent current a r = (r.changed ≡ false) × (r.active_version ≡ current) × (r.approval ≡ a)

  -- A result that consumes the approval and makes the proposed version active.
  abbrev pub Activates :
      BudgetVersion → BudgetVersion → Approval → Consumption → BudgetActivationResult → Type 0
  Activates current proposed a given r =
      (r.changed ≡ true)
      × (r.active_version ≡ proposed)
      × IsConsumable record_digest a given
      × ((n : ℕ) × (given.now ≡ exact (pos n)) × (r.approval ≡ consumed_record a n))
      × Succeeds current proposed a
      × StaysWithin current proposed a

  decided_cases :
      (current proposed : BudgetVersion) (a : Approval) (given : Consumption) (committed : Bool)
      (tests : Option Bool)
      → (tests ≡ some false)
        ⊎ ((tests ≡ some true) × Succeeds current proposed a × StaysWithin current proposed a)
      → (r : BudgetActivationResult) × (decided_activation record_digest current proposed a given
            committed tests
          ≡ Activation.result r)
        × (KeepsCurrent current a r ⊎ ((committed ≡ true) × Activates current proposed a given r))
  unfolding decided_activation consumed_activation result_of kept activated
  decided_cases current proposed a given committed tests (inl failed) =
      (kept current a true "BUDGET_APPROVAL_CONFLICT", rw failed refl, inl (refl, refl, refl))
  decided_cases current proposed a given false tests (inr (held, succeeds, stays)) =
      (kept current a false "BUDGET_VERSION_PENDING", rw held refl, inl (refl, refl, refl))
  decided_cases current proposed a given true tests (inr (held, succeeds, stays)) =
      elim (Bool-cases (is_exact given.now)) [
        | inr no_time ↦ (
          kept current a true "BUDGET_APPROVAL_CONFLICT",
          simp (held, no_time),
          inl (refl, refl, refl),
        )
        | inl timed ↦ elim (consume_approval_cases record_digest a given) [
          | inr (bad, same) ↦ (
            kept current a true "BUDGET_APPROVAL_CONFLICT",
            simp (held, timed, same),
            inl (refl, refl, refl),
          )
          | inl (ok, n, now, same) ↦ (
            activated proposed (consumed_record a n),
            simp (held, timed, same),
            inr (refl, (refl, refl, ok, (n, now, refl), succeeds, stays)),
          )
        ]
      ]

  -- `activate_budget` on well-typed arguments returns a result, and never raises `KeyError`.
  -- Unless it makes the proposed version active, it leaves the current version and the approval
  -- as they are. It makes the proposed version active only in a committed transaction and by
  -- consuming the approval, and then the version succeeds the current one with the same hard
  -- limits, and its soft limits are within them in every affected dimension.
  pub activate_budget_verdict :
      (current proposed : BudgetVersion) (a : Approval) (given : Consumption) (committed : Bool)
      → (is_exact given.presented_reference ≡ true) × (is_exact given.current_context ≡ true)
      → (r : BudgetActivationResult) × (activate_budget record_digest
            (exact current)
            (exact proposed)
            (exact a)
            given
            (exact committed)
          ≡ Activation.result r)
        × (KeepsCurrent current a r ⊎ ((committed ≡ true) × Activates current proposed a given r))
  unfolding activate_budget tests_of
  activate_budget_verdict current proposed a given committed (presented, context) =
      let (r, same, facts) =
        decided_cases current proposed a given committed
          (extension_is_valid current proposed a (tests_of current proposed a given))
          (tests_cases current proposed a given) in
      (r, simp (presented, context, same), facts)
