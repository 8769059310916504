-- ===== src/Transaction/Journal.antt =====
-- The journal of an apply transaction, src/coding_harness/transaction/journal.py: what a sequence
-- of records must be, and `ApplyJournal.record`. The journal is the list of the records in its
-- file; the encoding of a record in a line and the calls of the operating system that write it
-- are not modelled. A `ValueError` is `false`, or `none`.
pub mod Evidence
pub mod Phases
pub mod Frames
pub mod Appending
pub mod Evidenced
pub mod Guarantees
pub mod WriteAhead
pub mod Restart
mod Examples
use ai_coding_agent_harness.Base.{
  leb, ℕ, ◌+◌, String, Bool, true, false, not, ◌&&◌, ◌||◌, Option, none, some, List, [], ◌∷◌, ◌++◌,
  reverse, find_first, any, all, length, ltb, ◌==◌, ◌!=◌, nat_comparable, text_comparable,
  if◌then◌else◌, nonempty,
}
use ai_coding_agent_harness.Domain.ApprovalModels.{option_text_eq}
use ai_coding_agent_harness.Domain.AcceptanceModels.{is_absent}
use ai_coding_agent_harness.Transaction.Models.{
  ApplyPhase, JournalStage, JournalStatus, RepoPath, ApplyPlanEntry, ApplyPlan, JournalRecord,
  phase_comparable, stage_comparable, status_comparable, record_is_valid,
}
use ai_coding_agent_harness.Transaction.Journal.Evidence.{
  owned_detail, backup_evidence_is_valid, applied_evidence_is_valid, rolled_back_evidence_is_valid,
}

-- `current in _PHASE_PREDECESSORS[phase]`
unfoldable pub phase_predecessors : ApplyPhase → ApplyPhase → Bool
phase_predecessors ApplyPhase.preparing current = false
phase_predecessors ApplyPhase.backup_ready current = current == ApplyPhase.preparing
phase_predecessors ApplyPhase.applying current = current == ApplyPhase.backup_ready
phase_predecessors ApplyPhase.applied current = current == ApplyPhase.applying
phase_predecessors ApplyPhase.rolling_back current =
    (current == ApplyPhase.applying) || (current == ApplyPhase.recovery_required)
phase_predecessors ApplyPhase.rolled_back current = current == ApplyPhase.rolling_back
phase_predecessors ApplyPhase.recovery_required current = current != ApplyPhase.recovery_required

-- `_PHASE_STAGE`
unfoldable pub phase_stage : ApplyPhase → JournalStage
phase_stage ApplyPhase.preparing = JournalStage.prepare
phase_stage ApplyPhase.backup_ready = JournalStage.backup
phase_stage ApplyPhase.applying = JournalStage.apply
phase_stage ApplyPhase.applied = JournalStage.verify
phase_stage ApplyPhase.rolling_back = JournalStage.rollback
phase_stage ApplyPhase.rolled_back = JournalStage.verify
phase_stage ApplyPhase.recovery_required = JournalStage.recovery

-- The entry of the plan for a path, and the last entry that creates a parent directory.
unfoldable pub entry_at : ApplyPlan → Option RepoPath → Option ApplyPlanEntry
entry_at plan none = none
entry_at plan (some path) =
    find_first (λ e. e.path.identity == path.identity) (reverse plan.entries)

unfoldable pub owner_of : ApplyPlan → Option RepoPath → Option ApplyPlanEntry
owner_of plan none = none
owner_of plan (some path) =
    find_first (λ e. any (λ p. p.identity == path.identity) e.created_parent_paths)
      (reverse plan.entries)

abbrev pub in_phase : Option ApplyPhase → ApplyPhase → Bool
in_phase none phase = false
in_phase (some current) phase = current == phase

-- A pending and a completed record of an effect, with the digest of the completed one.
unfoldable pub effect_is_valid : JournalRecord → String → String → Option String → Bool
effect_is_valid item pending_detail completed_detail digest = elim item.status [
  | JournalStatus.pending ↦ (item.detail == pending_detail) && is_absent item.evidence_digest
  | JournalStatus.completed ↦ (item.detail == completed_detail) && (item.evidence_digest == digest)
]

unfoldable pub apply_record_is_valid :
    JournalRecord → Option ApplyPlanEntry → Option ApplyPlanEntry → Bool
apply_record_is_valid item (some entry) owner =
    effect_is_valid item "apply effect pending" "apply effect verified" entry.new_digest
apply_record_is_valid item none (some owner) =
    (item.status == JournalStatus.completed)
    && ((item.detail == owned_detail owner) && not (is_absent item.evidence_digest))
apply_record_is_valid item none none = false

unfoldable pub verify_record_is_valid : JournalRecord → Option ApplyPhase → ApplyPlan → Bool
verify_record_is_valid item current plan =
    (item.status == JournalStatus.completed)
    && (is_absent item.path
        && ((in_phase current ApplyPhase.applying
              && (((item.detail == "change set digest rechecked")
                    && (item.evidence_digest == some plan.changeset_digest))
                  || ((item.detail == "index digest rechecked")
                      && (item.evidence_digest == some plan.index_digest_before))))
            || (in_phase current ApplyPhase.rolling_back
                && ((item.detail == "rollback index digest rechecked")
                    && (item.evidence_digest == some plan.index_digest_before)))))

unfoldable pub backup_record_is_valid : JournalRecord → Option ApplyPlanEntry → Bool
backup_record_is_valid item none = false
backup_record_is_valid item (some entry) =
    effect_is_valid item "backup pending" "backup verified" entry.backup_digest

unfoldable pub rollback_record_is_valid : JournalRecord → Option ApplyPlanEntry → Bool
rollback_record_is_valid item none = false
rollback_record_is_valid item (some entry) =
    effect_is_valid item "rollback effect pending" "rollback effect verified"
      entry.expected_original_digest

-- `_validate_nonphase_record`
unfoldable pub nonphase_is_valid : JournalRecord → Option ApplyPhase → ApplyPlan → Bool
nonphase_is_valid item current plan = elim item.stage [
  | JournalStage.backup ↦
      in_phase current ApplyPhase.preparing && backup_record_is_valid item (entry_at plan item.path)
  | JournalStage.apply ↦
      in_phase current ApplyPhase.applying
      && apply_record_is_valid item (entry_at plan item.path) (owner_of plan item.path)
  | JournalStage.verify ↦ verify_record_is_valid item current plan
  | JournalStage.rollback ↦
      in_phase current ApplyPhase.rolling_back
      && rollback_record_is_valid item (entry_at plan item.path)
  | JournalStage.prepare ↦ false
  | JournalStage.recovery ↦ false
]

-- The phases that carry the digest of the plan.
unfoldable pub carries_plan : ApplyPhase → Bool
carries_plan ApplyPhase.preparing = true
carries_plan ApplyPhase.backup_ready = true
carries_plan ApplyPhase.applied = true
carries_plan ApplyPhase.rolled_back = true
carries_plan _ = false

-- Whether a phase may follow the current one; the first record starts with one of two phases.
unfoldable pub may_follow : Option ApplyPhase → Bool → JournalRecord → ApplyPhase → Bool
may_follow none is_first item phase =
    is_first
    && (((phase == ApplyPhase.preparing) && (item.stage == JournalStage.prepare))
        || ((phase == ApplyPhase.recovery_required) && (item.stage == JournalStage.recovery)))
may_follow (some current) is_first item phase =
    (phase != current) && phase_predecessors phase current

-- The evidence that a phase needs in the whole journal.
unfoldable pub has_evidence : ApplyPlan → List JournalRecord → ℕ → ApplyPhase → Bool
has_evidence plan records order ApplyPhase.backup_ready =
    backup_evidence_is_valid records plan order
has_evidence plan records order ApplyPhase.applied = applied_evidence_is_valid records plan order
has_evidence plan records order ApplyPhase.rolled_back =
    rolled_back_evidence_is_valid records plan order
has_evidence plan records order _ = true

unfoldable pub phase_is_valid :
    ApplyPlan → List JournalRecord → Option ApplyPhase → Bool → JournalRecord → ApplyPhase → Bool
phase_is_valid plan records current is_first item phase =
    (is_absent item.path
      && ((item.status == JournalStatus.completed) && (item.stage == phase_stage phase)))
    && ((if carries_plan phase
          then item.evidence_digest == some plan.digest
          else is_absent item.evidence_digest)
        && (may_follow current is_first item phase && has_evidence plan records item.order phase))

-- The loop of `_validate_record_sequence` over the rest of the records.
unfoldable pub validate_from :
    ApplyPlan → List JournalRecord → Option ApplyPhase → Bool → List JournalRecord → Bool
validate_from plan records current is_first [] = true
validate_from plan records current is_first (item ∷ rest) = elim item.phase [
  | none ↦ nonphase_is_valid item current plan && validate_from plan records current false rest
  | some phase ↦
      phase_is_valid plan records current is_first item phase
      && validate_from plan records (some phase) false rest
]

-- `_validate_record_sequence`
unfoldable pub sequence_is_valid : ApplyPlan → List JournalRecord → Bool
sequence_is_valid plan records = validate_from plan records none true records

-- The orders are n, n + 1, ...
unfoldable pub orders_from : ℕ → List JournalRecord → Bool
orders_from n [] = true
orders_from n (item ∷ rest) = (item.order == n) && orders_from (n + 1) rest

-- What the property `records` accepts.
unfoldable pub records_are_valid : ApplyPlan → List JournalRecord → Bool
records_are_valid plan records =
    leb (length records) 100000 && (orders_from 1 records && sequence_is_valid plan records)

-- The current phase after more records, and `latest_phase`.
unfoldable pub phase_after : Option ApplyPhase → List JournalRecord → Option ApplyPhase
phase_after current [] = current
phase_after current (item ∷ rest) = elim item.phase [
  | none ↦ phase_after current rest
  | some phase ↦ phase_after (some phase) rest
]

abbrev pub latest_phase : List JournalRecord → Option ApplyPhase
latest_phase records = phase_after none records

-- `blocking` of a `JournalSnapshot`
unfoldable pub is_blocking : Option ApplyPhase → Bool
is_blocking phase = not (in_phase phase ApplyPhase.applied || in_phase phase ApplyPhase.rolled_back)

-- `illegal apply phase transition`
unfoldable pub transition_is_legal :
    Option ApplyPhase → List JournalRecord → JournalStage → ApplyPhase → Bool
transition_is_legal none records stage phase =
    not (nonempty records)
    && (((phase == ApplyPhase.preparing) && (stage == JournalStage.prepare))
        || ((phase == ApplyPhase.recovery_required) && (stage == JournalStage.recovery)))
transition_is_legal (some current) records stage phase =
    (phase == current) || phase_predecessors phase current

unfoldable pub may_append : ApplyPlan → List JournalRecord → JournalRecord → Bool
may_append plan records item = elim item.phase [
  | none ↦ nonphase_is_valid item (latest_phase records) plan
  | some phase ↦
      transition_is_legal (latest_phase records) records item.stage phase
      && sequence_is_valid plan (records ++ (item ∷ []))
]

-- The arguments of `ApplyJournal.record`: a record without its order.
unfoldable pub numbered : List JournalRecord → JournalRecord → JournalRecord
numbered records given = record given { order = length records + 1 }

-- `ApplyJournal.record` on a journal that reads as `records`: the journal that it leaves.
unfoldable pub append_record :
    ApplyPlan → List JournalRecord → JournalRecord → Option (List JournalRecord)
append_record plan records given =
    let new = numbered records given in
    if record_is_valid new && may_append plan records new
    then some (records ++ (new ∷ []))
    else none
