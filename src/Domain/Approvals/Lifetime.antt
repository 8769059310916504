-- ===== src/Domain/Approvals/Lifetime.antt =====
-- The life of an approval under any sequence of consumptions and revocations.
use ai_coding_agent_harness.Base.{
  exact, absent, other, Bool-cases, if◌then◌else◌, ◌≤◌, ◌+◌, List, [], ◌∷◌, ℕ, String, ◌≡◌, refl,
  true, Option, none, some, arith, ◌||◌, ◌⊎◌, inl, inr, Object,
}
use ai_coding_agent_harness.Base.Int.{ℤ, pos, negsuc}
use ai_coding_agent_harness.Domain.Policy.{PolicyDecisionRecord}
use ai_coding_agent_harness.Domain.ApprovalModels.{
  approval_is_valid, consumed_is_valid, revoked_is_valid, Approval, ApprovalResult,
}
use ai_coding_agent_harness.Domain.Approvals.Operations.{
  revoked_record, revocation_result, consumed_record, Consumption, consume_approval,
  revoke_approval, result_of,
}
use ai_coding_agent_harness.Domain.Approvals.Verdicts.{consume_approval_cases, IsConsumable}

pub data Operation : Type 0 where
  consume : Consumption → Operation
  revoke : Object ℤ → Operation

-- The record that an answer leaves in the store, and whether it permits the side effect.
pub after : Approval → Option ApprovalResult → Approval
after a none = a
after a (some r) = r.approval

permits : Option ApprovalResult → ℕ
permits none = 0
permits (some r) = if r.side_effect_permitted then 1 else 0

module _ (record_digest : PolicyDecisionRecord → String) where
  pub answer : Operation → Approval → Option ApprovalResult
  answer (consume given) a = consume_approval record_digest (exact a) given
  answer (revoke now) a = revoke_approval (exact a) now

  -- The number of side effects that a sequence of operations permits.
  pub side_effects : List Operation → Approval → ℕ
  unfolding after permits answer
  side_effects [] a = 0
  side_effects (op ∷ rest) a = permits (answer op a) + side_effects rest (after a (answer op a))

  -- A closed record answers with a conflict and stays as it is.
  closed_stays :
      (op : Operation) (a : Approval)
      → a.consumed || a.revoked ≡ true
      → (permits (answer op a) ≡ 0) × (after a (answer op a) ≡ a)
  unfolding permits answer after IsConsumable revoke_approval revocation_result result_of
  closed_stays (consume given) a closed = elim (consume_approval_cases record_digest a given) [
    | inl ((((fresh, free), bound), asked), t, now, same) ↦ absurd (ground (arith, fresh, free))
    | inr (bad, same) ↦ rw same (refl, refl)
  ]
  closed_stays (revoke (exact (pos n))) a closed = ground arith
  closed_stays (revoke (exact (negsuc n))) a closed = (refl, refl)
  closed_stays (revoke absent) a closed = (refl, refl)
  closed_stays (revoke other) a closed = (refl, refl)

  closed_permits_nothing :
      (ops : List Operation) (a : Approval)
      → a.consumed || a.revoked ≡ true
      → side_effects ops a ≡ 0
  unfolding side_effects
  closed_permits_nothing [] a closed = refl
  closed_permits_nothing (op ∷ rest) a closed =
      let (none_now, same) = closed_stays op a closed in
      let later = closed_permits_nothing rest a closed in simp (none_now, same, later)

  -- One step permits nothing, or it permits one side effect and closes the record.
  step_cases :
      (op : Operation) (a : Approval)
      → (permits (answer op a) ≡ 0)
        ⊎ ((permits (answer op a) ≡ 1)
            × ((after a (answer op a)).consumed || (after a (answer op a)).revoked ≡ true))
  unfolding permits answer after revoke_approval revocation_result result_of consumed_record
  step_cases (consume given) a = elim (consume_approval_cases record_digest a given) [
    | inl (ok, t, now, same) ↦ inr (rw same (refl, refl))
    | inr (bad, same) ↦ inl (rw same refl)
  ]
  step_cases (revoke (exact (pos n))) a = ground arith
  step_cases (revoke (exact (negsuc n))) a = inl refl
  step_cases (revoke absent) a = inl refl
  step_cases (revoke other) a = inl refl

  -- No sequence of consumptions and revocations, with whatever arguments and in whatever order,
  -- gets more than one side effect out of an approval, and none at all once it is consumed or
  -- revoked.
  pub at_most_one_side_effect :
      (ops : List Operation) (a : Approval)
      → side_effects ops a ≤ (if a.consumed || a.revoked then 0 else 1)
  unfolding side_effects
  at_most_one_side_effect [] a = ground arith
  at_most_one_side_effect (op ∷ rest) a =
      let later = at_most_one_side_effect rest (after a (answer op a)) in
      elim (Bool-cases (a.consumed || a.revoked)) [
        | inl closed ↦
            let nothing = closed_permits_nothing (op ∷ rest) a closed in rw nothing (ground arith)
        | inr pending ↦ elim (step_cases op a) [
          | inl none_now ↦ ground arith
          | inr (one, closed) ↦
              let nothing = closed_permits_nothing rest (after a (answer op a)) closed in
              ground arith
        ]
      ]

  -- Both operations keep a valid record valid, so the constructor that `replace` runs again does
  -- not raise.
  pub operations_keep_valid :
      (op : Operation) (a : Approval)
      → approval_is_valid a ≡ true
      → approval_is_valid (after a (answer op a)) ≡ true
  unfolding answer after revoke_approval revocation_result result_of consumed_record revoked_record
  operations_keep_valid (consume given) a valid =
      elim (consume_approval_cases record_digest a given) [
        | inl (ok, n, now, same) ↦ rw same (consumed_is_valid a n valid)
        | inr (bad, same) ↦ rw same valid
      ]
  operations_keep_valid (revoke (exact (pos n))) a valid =
      elim (Bool-cases (a.consumed || a.revoked)) [
        | inl closed ↦ rw closed valid
        | inr pending ↦ rw pending (revoked_is_valid a n valid)
      ]
  operations_keep_valid (revoke (exact (negsuc n))) a valid = valid
  operations_keep_valid (revoke absent) a valid = valid
  operations_keep_valid (revoke other) a valid = valid
