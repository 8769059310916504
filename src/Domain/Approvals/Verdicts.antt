-- ===== src/Domain/Approvals/Verdicts.antt =====
-- When an approval is consumed, and what each operation answers.
use ai_coding_agent_harness.Domain.Approvals.PolicyBinding.{IsBehind, policy_binding_is_valid_iff}
use ai_coding_agent_harness.Domain.Approvals.Bindings.{IsWellBound, binding_is_valid_iff}
use ai_coding_agent_harness.Base.{
  ℕ, ◌+◌, not_iff, and_iff, text_comparable, nat_comparable, String, ◌≡◌, refl, ◌⊎◌, inl, inr, ◌↔◌,
  true, false, none, some, ◌≤◌, ◌<◌, arith, exact, same_iff, Bool-cases,
}
use ai_coding_agent_harness.Base.Int.{int_eq, ℤ, pos, negsuc}
use ai_coding_agent_harness.Domain.Policy.{PolicyDecisionRecord}
use ai_coding_agent_harness.Domain.ApprovalModels.{
  ApprovalExecutionContext, ApprovalResult, Approval, PresentedApprovalReference,
}
use ai_coding_agent_harness.Domain.Approvals.Fields.{holds_iff, holds_the_iff}
use ai_coding_agent_harness.Domain.Approvals.Context.{
  compared, context_of, context_matches_record_iff,
}
use ai_coding_agent_harness.Domain.Approvals.Operations.{
  Consumption, consumption_is_valid, consume_approval, consumed_record, result_of, is_pending,
  refers_to, in_window, consumption_result, exact_integer,
}

-- The reference names the record in its present revision.
abbrev pub Refers : Approval → PresentedApprovalReference → Type 0
Refers a r = (r.identity ≡ a.identity) × (r.revision ≡ a.revision)

-- `created_at ≤ now < expires_at`
unfoldable pub InWindow : Approval → ℤ → Type 0
InWindow a (pos n) = (a.created_at ≤ n) × (n < a.expires_at)
InWindow a (negsuc n) = ⊥

in_window_iff : (a : Approval) (t : ℤ) → (in_window a t ≡ true) ↔ InWindow a t
unfolding in_window InWindow
in_window_iff a (pos n) = (λ h. ground arith, λ h. ground arith)
in_window_iff a (negsuc n) = (λ h. ground arith, λ h. absurd h)

module _ (record_digest : PolicyDecisionRecord → String) where
  -- A pending, well-bound record, presented in its present revision, in its own context and in
  -- its window of time.
  unfoldable pub IsConsumable : Approval → Consumption → Type 0
  IsConsumable a given =
      (((a.consumed ≡ false) × (a.revoked ≡ false))
        × (IsWellBound a
            × IsBehind record_digest a given.trusted_policy_record
                given.trusted_policy_record_identity))
      × (((r : PresentedApprovalReference) × ((given.presented_reference ≡ exact r) × Refers a r))
          × ((given.expected_revision ≡ exact (pos a.revision))
              × (((c : ApprovalExecutionContext) × ((given.current_context ≡ exact c)
                      × (compared c ≡ compared (context_of a))))
                  × ((t : ℤ) × ((given.now ≡ exact t) × InWindow a t)))))

  -- The tests of `consume_approval` together ask for exactly that.
  pub consumption_is_valid_iff :
      (a : Approval) (given : Consumption)
      → (consumption_is_valid record_digest a given ≡ true) ↔ IsConsumable a given
  unfolding consumption_is_valid is_pending IsConsumable refers_to
  consumption_is_valid_iff a given =
      let tests =
        and_iff
          (and_iff (not_iff a.consumed) (
            and_iff (not_iff a.revoked) (
              and_iff (binding_is_valid_iff a) (
                policy_binding_is_valid_iff record_digest a given.trusted_policy_record
                  given.trusted_policy_record_identity))))
          (and_iff
            (holds_iff _ given.presented_reference
              (λ r. and_iff (same_iff r.identity a.identity) (same_iff r.revision a.revision)))
            (and_iff
              (holds_the_iff _ given.expected_revision (pos a.revision)
                (λ n. same_iff n (pos a.revision)))
              (and_iff (holds_iff _ given.current_context (λ c. context_matches_record_iff c a)) (
                and_iff (not_iff a.consumed)
                  (and_iff (not_iff a.revoked) (holds_iff _ given.now (in_window_iff a))))))) in
      (
        λ h.
            let ((fresh, (free, bound)), (presented, (expected, (context, (c, (r, timed)))))) =
              tests.0 h in
            (((fresh, free), bound), (presented, (expected, (context, timed)))),
        λ (((fresh, free), bound), (presented, (expected, (context, timed)))).
            tests.1
              ((fresh, (free, bound)), (presented, (expected, (context, (fresh, (free, timed)))))),
      )

  -- A time of the window is not before zero.
  consumable_time :
      (a : Approval) (given : Consumption)
      → IsConsumable a given
      → (n : ℕ) × (given.now ≡ exact (pos n))
  unfolding IsConsumable InWindow
  consumable_time a given (rest, (presented, (expected, (context, (pos n, (now, timed)))))) =
      (n, now)
  consumable_time a given (rest, (presented, (expected, (context, (negsuc n, (now, timed)))))) =
      absurd (omega arith)

  -- Both answers, in the words of the code.
  pub consume_approval_cases :
      (a : Approval) (given : Consumption)
      → (IsConsumable a given
          × (n : ℕ) × (given.now ≡ exact (pos n))
          × (consume_approval record_digest (exact a) given
              ≡ some (
                  result_of a true false true "APPROVAL_CONSUMED"
                    (some (pos a.revision))
                    (some (consumed_record a n)))))
        ⊎ (¬ IsConsumable a given
            × (consume_approval record_digest (exact a) given
                ≡ some (
                    result_of a false true false "APPROVAL_CONFLICT"
                      (exact_integer given.expected_revision)
                      none)))
  unfolding consume_approval consumption_result IsConsumable
  consume_approval_cases a given = elim (Bool-cases (consumption_is_valid record_digest a given)) [
    | inl valid ↦
        let ok = (consumption_is_valid_iff a given).0 valid in
        let (n, now) = consumable_time a given ok in
        let (rest, (presented, (expected, later))) = ok in
        inl (ok, n, now, simp (valid, now, expected))
    | inr bad ↦ inr (λ ok. ground (arith, (consumption_is_valid_iff a given).1 ok), ground arith)
  ]

  -- A consumption succeeds exactly when the approval is consumable: neither consumed nor revoked,
  -- bound as its type asks, asked for by the policy record, and presented in its present revision,
  -- in its own context and in its window of time. Then the record moves to the next revision, is
  -- consumed at the given time and else stays as it is, and the side effect is permitted. In every
  -- other case the answer is a conflict that permits nothing and leaves the record as it is.
  pub consume_approval_verdict :
      (a : Approval) (given : Consumption)
      → (IsConsumable a given
          × (n : ℕ) × (given.now ≡ exact (pos n))
          × (consume_approval record_digest (exact a) given
              ≡ some (record {
                permitted = true;
                conflict = false;
                side_effect_permitted = true;
                reason = "APPROVAL_CONSUMED";
                approval = record a {
                  revision = a.revision + 1;
                  consumed = true;
                  consumed_at = some n;
                };
                previous_revision = a.revision;
                expected_revision = pos a.revision;
                new_revision = some (a.revision + 1);
              })))
        ⊎ (¬ IsConsumable a given
            × (r : ApprovalResult) × (consume_approval record_digest (exact a) given ≡ some r)
            × (r.permitted ≡ false)
            × (r.conflict ≡ true)
            × (r.side_effect_permitted ≡ false)
            × (r.reason ≡ "APPROVAL_CONFLICT")
            × (r.approval ≡ a)
            × (r.new_revision ≡ none))
  unfolding result_of consumed_record IsConsumable InWindow
  consume_approval_verdict a given = elim (consume_approval_cases a given) [
    | inr (bad, same) ↦ inr (
      bad,
      result_of a false true false "APPROVAL_CONFLICT" (exact_integer given.expected_revision) none,
      same,
      refl,
      refl,
      refl,
      refl,
      refl,
      refl,
    )
    | inl consumed ↦ inl consumed
  ]
