-- ===== src/Transaction/Journal/Guarantees.antt =====
-- What a valid journal proves: backups before effects, and a proven outcome before the
-- transaction stops to block the start of the program.
use mathlib.Core.List.{Memᴰ}
use ai_coding_agent_harness.Base.{
  all-All, none, any, All, ℕ, Bool, true, false, Option, some, List, [], ◌∷◌, ◌≡◌, ◌⊎◌, refl, inl,
  inr, arith, Option-cases, select, nat_comparable,
}
use ai_coding_agent_harness.Transaction.Models.{
  ApplyPhase, JournalStage, ApplyPlan, ApplyPlanEntry, JournalRecord,
}
use ai_coding_agent_harness.Transaction.Journal.{
  latest_phase, is_blocking, sequence_is_valid, records_are_valid, validate_from, phase_is_valid,
  phase_after, has_evidence,
}
use ai_coding_agent_harness.Transaction.Journal.Evidence.{
  applied_evidence_is_valid, rolled_back_evidence_is_valid, is_single, is_check, is_completed,
  entry_is_backed_up, entry_is_applied, entry_is_rolled_back, rolled_back_after,
}
use ai_coding_agent_harness.Transaction.Journal.Evidenced.{Happened, ordered-Happened}

abbrev pub BackedUp : List JournalRecord → ℕ → ApplyPlanEntry → Type 0
BackedUp records bound e =
    Happened records JournalStage.backup "backup pending" "backup verified" e.path.identity
      e.backup_digest bound

abbrev pub Applied : List JournalRecord → ℕ → ApplyPlanEntry → Type 0
Applied records bound e =
    Happened records JournalStage.apply "apply effect pending" "apply effect verified"
      e.path.identity e.new_digest bound

-- The effect of the entry was never verified, or it was undone.
abbrev pub Undone : List JournalRecord → ℕ → ApplyPlanEntry → Type 0
Undone records bound e =
    (select (is_completed JournalStage.apply "apply effect verified" e.path.identity e.new_digest)
        records
      ≡ [])
    ⊎ Happened records JournalStage.rollback "rollback effect pending" "rollback effect verified"
        e.path.identity e.expected_original_digest bound

module _ (records : List JournalRecord) (bound : ℕ) (e : ApplyPlanEntry) where
  pub entry_is_backed_up-BackedUp :
      entry_is_backed_up records bound e ≡ true → BackedUp records bound e
  unfolding entry_is_backed_up
  entry_is_backed_up-BackedUp proven =
      ordered-Happened records JournalStage.backup "backup pending" "backup verified"
        e.path.identity e.backup_digest bound proven

  entry_is_applied-Applied : entry_is_applied records bound e ≡ true → Applied records bound e
  unfolding entry_is_applied
  entry_is_applied-Applied proven =
      ordered-Happened records JournalStage.apply "apply effect pending" "apply effect verified"
        e.path.identity e.new_digest bound (ground arith)

  rolled_back_after-Undone :
      (applied : List JournalRecord)
      → rolled_back_after records bound e applied ≡ true
      → (applied ≡ [])
        ⊎ Happened records JournalStage.rollback "rollback effect pending"
            "rollback effect verified" e.path.identity e.expected_original_digest bound
  unfolding rolled_back_after
  rolled_back_after-Undone [] proven = inl refl
  rolled_back_after-Undone (a ∷ b ∷ more) proven = absurd (ground arith)
  rolled_back_after-Undone (a ∷ []) proven = inr (
      ordered-Happened records JournalStage.rollback "rollback effect pending"
        "rollback effect verified" e.path.identity e.expected_original_digest bound (ground arith))

  entry_is_rolled_back-Undone : entry_is_rolled_back records bound e ≡ true → Undone records bound e
  unfolding entry_is_rolled_back
  entry_is_rolled_back-Undone proven =
      rolled_back_after-Undone
        (select
          (is_completed JournalStage.apply "apply effect verified" e.path.identity e.new_digest)
          records)
        proven

-- The latest phase was entered by a record that had the evidence for it.
latest_entered :
    (plan : ApplyPlan) (records : List JournalRecord) (current : Option ApplyPhase)
    (is_first : Bool)
    → (rest : List JournalRecord) (p : ApplyPhase)
    → validate_from plan records current is_first rest ≡ true
    → phase_after current rest ≡ some p
    → (current ≡ some p)
      ⊎ ((r : JournalRecord) × Memᴰ r rest
          × (r.phase ≡ some p)
          × (has_evidence plan records r.order p ≡ true))
unfolding validate_from phase_after phase_is_valid
latest_entered plan records current is_first [] p valid ends = inl ends
latest_entered plan records current is_first (r ∷ rest) p valid ends = elim (Option-cases r.phase) [
  | inl plain ↦
      elim (latest_entered plan records current false rest p (ground arith) (ground arith)) [
        | inl same ↦ inl same
        | inr (s, member, enters, evidence) ↦ inr (s, Memᴰ.tail member, enters, evidence)
      ]
  | inr (q, changes) ↦
      elim (latest_entered plan records (some q) false rest p (ground arith) (ground arith)) [
        | inr (s, member, enters, evidence) ↦ inr (s, Memᴰ.tail member, enters, evidence)
        | inl same ↦ inr (r, Memᴰ.head refl, ground arith, ground arith)
      ]
]

-- Every entry is in place and both digests were checked again; or every entry is undone and the
-- index was checked again.
abbrev pub Settled : ApplyPlan → List JournalRecord → ℕ → Type 0
Settled plan records bound =
    (All (Applied records bound) plan.entries
      × (any (is_check "change set digest rechecked" plan.changeset_digest bound) records ≡ true)
      × (any (is_check "index digest rechecked" plan.index_digest_before bound) records ≡ true))
    ⊎ (All (Undone records bound) plan.entries
        × (is_single (
              select (is_check "rollback index digest rechecked" plan.index_digest_before bound)
                records)
            ≡ true))

applied_evidence-Settled :
    (plan : ApplyPlan) (records : List JournalRecord) (bound : ℕ)
    → applied_evidence_is_valid records plan bound ≡ true
    → Settled plan records bound
unfolding applied_evidence_is_valid
applied_evidence-Settled plan records bound evidence = inl (
  all-All (entry_is_applied records bound) (entry_is_applied-Applied records bound) plan.entries
      (ground arith),
  ground arith,
  ground arith,
)

rolled_back_evidence-Settled :
    (plan : ApplyPlan) (records : List JournalRecord) (bound : ℕ)
    → rolled_back_evidence_is_valid records plan bound ≡ true
    → Settled plan records bound
unfolding rolled_back_evidence_is_valid
rolled_back_evidence-Settled plan records bound evidence = inr (
  all-All (entry_is_rolled_back records bound) (entry_is_rolled_back-Undone records bound)
      plan.entries (ground arith),
  ground arith,
)

-- A transaction whose journal is valid stops to block the start of the program only when its
-- outcome is proven: some record of the journal, before which every entry of the plan has a
-- verified effect and both digests were checked again, or before which every entry with a
-- verified effect has a verified rollback and the index was checked again exactly once.
pub is_blocking-Settled :
    (plan : ApplyPlan) (records : List JournalRecord)
    → records_are_valid plan records ≡ true
    → is_blocking (latest_phase records) ≡ false
    → (r : JournalRecord) × Memᴰ r records × Settled plan records r.order
unfolding records_are_valid sequence_is_valid is_blocking has_evidence
is_blocking-Settled plan records valid free = elim (Option-cases (latest_phase records)) [
  | inl no_phase ↦ absurd (ground arith)
  | inr (ApplyPhase.applied, ends) ↦
      elim (latest_entered plan records none true records ApplyPhase.applied (ground arith) ends) [
        | inl same ↦ absurd (ground arith)
        | inr (r, member, enters, evidence) ↦
            (r, member, applied_evidence-Settled plan records r.order evidence)
      ]
  | inr (ApplyPhase.rolled_back, ends) ↦
      elim (latest_entered plan records none true records ApplyPhase.rolled_back (ground arith)
        ends) [
          | inl same ↦ absurd (ground arith)
          | inr (r, member, enters, evidence) ↦
              (r, member, rolled_back_evidence-Settled plan records r.order evidence)
        ]
  | inr (p, ends) ↦ absurd (ground arith)
]
