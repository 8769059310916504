-- ===== src/Transaction/Journal/Evidence.antt =====
-- The evidence that the phases of a journal need: `_validate_backup_evidence`,
-- `_validate_applied_evidence` and `_validate_rolled_back_evidence` of
-- src/coding_harness/transaction/journal.py. The records that a dictionary collects under a path
-- are a selection from the journal.
use ai_coding_agent_harness.Domain.Text.{concat}
use ai_coding_agent_harness.Base.{
  ℕ, String, Bool, true, false, not, ◌&&◌, Option, none, some, List, [], ◌∷◌, select, any, all, ltb,
  ◌==◌, text_comparable,
}
use ai_coding_agent_harness.Domain.ApprovalModels.{option_text_eq}
use ai_coding_agent_harness.Domain.AcceptanceModels.{is_absent}
use ai_coding_agent_harness.Transaction.Models.{
  JournalStage, JournalStatus, ApplyPlanEntry, ApplyPlan, JournalRecord, stage_comparable,
  status_comparable,
}

unfoldable pub owned_detail : ApplyPlanEntry → String
owned_detail entry = concat "created parent for " entry.path.canonical

-- `record.path is not None and record.path.identity == identity`
unfoldable pub is_at : String → JournalRecord → Bool
is_at identity item = elim item.path [ none ↦ false | some path ↦ path.identity == identity ]

-- A record of a stage that is no change of phase.
unfoldable pub is_effect : JournalStage → JournalStatus → String → JournalRecord → Bool
is_effect stage status detail item =
    is_absent item.phase
    && ((item.stage == stage) && ((item.status == status) && (item.detail == detail)))

-- The pending records of an effect on a path, and the completed ones with a digest.
unfoldable pub is_started : JournalStage → String → String → JournalRecord → Bool
is_started stage detail identity item =
    is_effect stage JournalStatus.pending detail item
    && (is_at identity item && is_absent item.evidence_digest)

unfoldable pub is_completed : JournalStage → String → String → Option String → JournalRecord → Bool
is_completed stage detail identity digest item =
    is_effect stage JournalStatus.completed detail item
    && (is_at identity item && (item.evidence_digest == digest))

-- One record in each list, in order and below a bound.
unfoldable pub single_ordered : List JournalRecord → List JournalRecord → ℕ → Bool
single_ordered (started ∷ []) (finished ∷ []) bound =
    ltb started.order finished.order && ltb finished.order bound
single_ordered _ _ bound = false

unfoldable pub entry_is_backed_up : List JournalRecord → ℕ → ApplyPlanEntry → Bool
entry_is_backed_up records bound entry =
    single_ordered
      (select (is_started JournalStage.backup "backup pending" entry.path.identity) records)
      (select
        (is_completed JournalStage.backup "backup verified" entry.path.identity entry.backup_digest)
        records)
      bound

-- `_validate_backup_evidence`
unfoldable pub backup_evidence_is_valid : List JournalRecord → ApplyPlan → ℕ → Bool
backup_evidence_is_valid records plan bound = all (entry_is_backed_up records bound) plan.entries

-- A created parent of an entry, by its own record.
unfoldable pub is_created : ApplyPlanEntry → String → JournalRecord → Bool
is_created entry identity item =
    is_effect JournalStage.apply JournalStatus.completed (owned_detail entry) item
    && (is_at identity item && not (is_absent item.evidence_digest))

-- One record between two orders.
unfoldable pub single_between : ℕ → ℕ → List JournalRecord → Bool
single_between low high (item ∷ []) = ltb low item.order && ltb item.order high
single_between low high _ = false

unfoldable pub parents_are_created :
    List JournalRecord → ApplyPlanEntry → List JournalRecord → List JournalRecord → Bool
parents_are_created records entry (started ∷ []) (finished ∷ []) =
    all
      (λ p.
        single_between started.order finished.order (select (is_created entry p.identity) records))
      entry.created_parent_paths
parents_are_created records entry _ _ = false

unfoldable pub entry_is_applied : List JournalRecord → ℕ → ApplyPlanEntry → Bool
entry_is_applied records bound entry =
    let started =
      select (is_started JournalStage.apply "apply effect pending" entry.path.identity) records in
    let finished =
      select
        (is_completed JournalStage.apply "apply effect verified" entry.path.identity
          entry.new_digest)
        records in
    single_ordered started finished bound && parents_are_created records entry started finished

-- A verification with a digest, before an order.
unfoldable pub is_check : String → String → ℕ → JournalRecord → Bool
is_check detail digest bound item =
    is_effect JournalStage.verify JournalStatus.completed detail item
    && (is_absent item.path && ((item.evidence_digest == some digest) && ltb item.order bound))

-- `_validate_applied_evidence`
unfoldable pub applied_evidence_is_valid : List JournalRecord → ApplyPlan → ℕ → Bool
applied_evidence_is_valid records plan bound =
    all (entry_is_applied records bound) plan.entries
    && (any (is_check "change set digest rechecked" plan.changeset_digest bound) records
        && any (is_check "index digest rechecked" plan.index_digest_before bound) records)

unfoldable pub rolled_back_after :
    List JournalRecord → ℕ → ApplyPlanEntry → List JournalRecord → Bool
rolled_back_after records bound entry [] = true
rolled_back_after records bound entry (applied ∷ []) =
    let started =
      select (is_started JournalStage.rollback "rollback effect pending" entry.path.identity)
        records in
    let finished =
      select
        (is_completed JournalStage.rollback "rollback effect verified" entry.path.identity
          entry.expected_original_digest)
        records in
    single_ordered started finished bound && all (λ p. ltb applied.order p.order) started
rolled_back_after records bound entry (applied ∷ more) = false

unfoldable pub entry_is_rolled_back : List JournalRecord → ℕ → ApplyPlanEntry → Bool
entry_is_rolled_back records bound entry = rolled_back_after records bound entry (
    select
      (is_completed JournalStage.apply "apply effect verified" entry.path.identity entry.new_digest)
      records)

unfoldable pub is_single : List JournalRecord → Bool
is_single (item ∷ []) = true
is_single _ = false

-- `_validate_rolled_back_evidence`
unfoldable pub rolled_back_evidence_is_valid : List JournalRecord → ApplyPlan → ℕ → Bool
rolled_back_evidence_is_valid records plan bound =
    all (entry_is_rolled_back records bound) plan.entries
    && is_single
        (select (is_check "rollback index digest rechecked" plan.index_digest_before bound) records)
