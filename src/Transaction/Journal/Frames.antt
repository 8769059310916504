-- ===== src/Transaction/Journal/Frames.antt =====
-- A record that is no change of phase is no evidence for an earlier phase of the journal.
use ai_coding_agent_harness.Base.{
  ℕ, String, true, false, ◌==◌, Option, some, List, [], ◌∷◌, ◌++◌, ◌≡◌, refl, inl, inr, arith,
  Bool-cases, dec_equals_iff, ap, select, select-snoc, all-same,
}
use ai_coding_agent_harness.Transaction.Models.{
  ApplyPhase, JournalStage, ApplyPlan, ApplyPlanEntry, JournalRecord, JournalStage-discrete,
  stage_comparable, phase_comparable,
}
use ai_coding_agent_harness.Transaction.Journal.{nonphase_is_valid}
use ai_coding_agent_harness.Transaction.Journal.Evidence.{
  is_effect, is_started, is_completed, is_created, entry_is_backed_up, entry_is_applied,
  parents_are_created, single_between,
}
use ai_coding_agent_harness.Transaction.Journal.Phases.{not_preparing}

-- A record of the backups comes while the transaction is being prepared.
pub backup_when_preparing :
    (plan : ApplyPlan) (item : JournalRecord) (q : ApplyPhase)
    → nonphase_is_valid item (some q) plan ≡ true
    → not_preparing q ≡ true
    → (item.stage == JournalStage.backup) ≡ false
unfolding nonphase_is_valid
backup_when_preparing plan item q valid inside =
    elim (Bool-cases (item.stage == JournalStage.backup)) [
      | inr other ↦ other
      | inl same ↦
          let is_backup : item.stage ≡ JournalStage.backup =
            (dec_equals_iff JournalStage-discrete item.stage JournalStage.backup).0 same in
          absurd (ground arith)
    ]

pub apply_when_applying :
    (plan : ApplyPlan) (item : JournalRecord) (q : ApplyPhase)
    → nonphase_is_valid item (some q) plan ≡ true
    → (q == ApplyPhase.applying) ≡ false
    → (item.stage == JournalStage.apply) ≡ false
unfolding nonphase_is_valid
apply_when_applying plan item q valid outside =
    elim (Bool-cases (item.stage == JournalStage.apply)) [
      | inr other ↦ other
      | inl same ↦
          let is_apply : item.stage ≡ JournalStage.apply =
            (dec_equals_iff JournalStage-discrete item.stage JournalStage.apply).0 same in
          absurd (ground arith)
    ]

-- A record of another stage is no evidence for a path.
module _ (stage : JournalStage) (item : JournalRecord) (other : (item.stage == stage) ≡ false) where
  not_pending : (detail identity : String) → is_started stage detail identity item ≡ false
  unfolding is_started is_effect
  not_pending detail identity = ground arith

  not_completed :
      (detail identity : String) (digest : Option String)
      → is_completed stage detail identity digest item ≡ false
  unfolding is_completed is_effect
  not_completed detail identity digest = ground arith

not_created :
    (item : JournalRecord) (entry : ApplyPlanEntry) (identity : String)
    → (item.stage == JournalStage.apply) ≡ false
    → is_created entry identity item ≡ false
unfolding is_created is_effect
not_created item entry identity other = ground arith

pub backed_up_snoc :
    (records : List JournalRecord) (item : JournalRecord) (bound : ℕ) (entry : ApplyPlanEntry)
    → (item.stage == JournalStage.backup) ≡ false
    → entry_is_backed_up (records ++ (item ∷ [])) bound entry
      ≡ entry_is_backed_up records bound entry
unfolding entry_is_backed_up
backed_up_snoc records item bound entry other =
    let started =
      select-snoc (is_started JournalStage.backup "backup pending" entry.path.identity) records item
        (not_pending JournalStage.backup item other "backup pending" entry.path.identity) in
    let finished =
      select-snoc
        (is_completed JournalStage.backup "backup verified" entry.path.identity entry.backup_digest)
        records item
        (not_completed JournalStage.backup item other "backup verified" entry.path.identity
          entry.backup_digest) in
    simp (started, finished)

parents_snoc :
    (records : List JournalRecord) (item : JournalRecord) (entry : ApplyPlanEntry)
    → (item.stage == JournalStage.apply) ≡ false
    → (started finished : List JournalRecord)
    → parents_are_created (records ++ (item ∷ [])) entry started finished
      ≡ parents_are_created records entry started finished
unfolding parents_are_created
parents_snoc records item entry other (s ∷ []) (f ∷ []) =
    all-same
      (λ p.
        single_between s.order f.order
          (select (is_created entry p.identity) (records ++ (item ∷ []))))
      (λ p. single_between s.order f.order (select (is_created entry p.identity) records))
      entry.created_parent_paths
      (λ p. ap (single_between s.order f.order) (
        select-snoc (is_created entry p.identity) records item
          (not_created item entry p.identity other)))
parents_snoc records item entry other [] finished = refl
parents_snoc records item entry other (s ∷ t ∷ more) finished = refl
parents_snoc records item entry other (s ∷ []) [] = refl
parents_snoc records item entry other (s ∷ []) (f ∷ g ∷ more) = refl

pub applied_snoc :
    (records : List JournalRecord) (item : JournalRecord) (bound : ℕ) (entry : ApplyPlanEntry)
    → (item.stage == JournalStage.apply) ≡ false
    → entry_is_applied (records ++ (item ∷ [])) bound entry ≡ entry_is_applied records bound entry
unfolding entry_is_applied
applied_snoc records item bound entry other =
    let started =
      select-snoc (is_started JournalStage.apply "apply effect pending" entry.path.identity) records
        item
        (not_pending JournalStage.apply item other "apply effect pending" entry.path.identity) in
    let finished =
      select-snoc
        (is_completed JournalStage.apply "apply effect verified" entry.path.identity
          entry.new_digest)
        records item
        (not_completed JournalStage.apply item other "apply effect verified" entry.path.identity
          entry.new_digest) in
    let parents =
      parents_snoc records item entry other
        (select (is_started JournalStage.apply "apply effect pending" entry.path.identity) records)
        (select
          (is_completed JournalStage.apply "apply effect verified" entry.path.identity
            entry.new_digest)
          records) in
    simp (started, finished, parents)
