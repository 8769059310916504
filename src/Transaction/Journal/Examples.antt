-- ===== src/Transaction/Journal/Examples.antt =====
-- A transaction that changes one file, and its journal.
use mathlib.Core.List.{Memᴰ}
use ai_coding_agent_harness.Base.{
  String-discrete, Bool-cases, arith, ℕ, String, ◌≡◌, refl, true, false, Option, none, some, List,
  [], ◌∷◌, ◌++◌, All, find_first, select,
}
use ai_coding_agent_harness.Domain.Text.{
  concat, utf8_length, is_text, has_nul, is_digest, text_length, all_hex,
}
use ai_coding_agent_harness.Domain.ApprovalModels.{OptionText-discrete}
use ai_coding_agent_harness.Transaction.Models.{
  ApplyPhase, JournalStage, JournalStatus, ChangeOperation, SupportedEntryKind, RepoPath,
  ApplyPlanEntry, ApplyPlan, JournalRecord, ApplyPhase-discrete, JournalStage-discrete,
  JournalStatus-discrete, record_is_valid,
}
use ai_coding_agent_harness.Transaction.Journal.{
  phase_predecessors, phase_stage, entry_at, owner_of, effect_is_valid, apply_record_is_valid,
  verify_record_is_valid, backup_record_is_valid, rollback_record_is_valid, nonphase_is_valid,
  carries_plan, may_follow, has_evidence, phase_is_valid, validate_from, sequence_is_valid,
  orders_from, records_are_valid, phase_after, is_blocking, transition_is_legal, may_append,
  numbered, append_record,
}
use ai_coding_agent_harness.Transaction.Journal.Evidence.{
  owned_detail, is_at, is_effect, is_started, is_completed, single_ordered, entry_is_backed_up,
  backup_evidence_is_valid, is_created, single_between, parents_are_created, entry_is_applied,
  is_check, applied_evidence_is_valid, rolled_back_after, entry_is_rolled_back, is_single,
  rolled_back_evidence_is_valid,
}
use ai_coding_agent_harness.Transaction.Journal.Appending.{append_record-valid, never_enters}
use ai_coding_agent_harness.Transaction.Journal.Guarantees.{BackedUp, Settled, is_blocking-Settled}
use ai_coding_agent_harness.Transaction.Journal.WriteAhead.{effect-BackedUp}
use ai_coding_agent_harness.Transaction.Journal.Restart.{
  index_recheck, startup_rollback_verified, rechecked, second_recheck_refused,
}

program : Unit {0}
unfolding String-discrete Bool-cases is_text has_nul is_digest text_length all_hex
    OptionText-discrete ApplyPhase-discrete JournalStage-discrete JournalStatus-discrete utf8_length
    record_is_valid phase_predecessors phase_stage entry_at owner_of effect_is_valid
    apply_record_is_valid verify_record_is_valid backup_record_is_valid rollback_record_is_valid
    nonphase_is_valid carries_plan may_follow has_evidence phase_is_valid validate_from
    sequence_is_valid orders_from records_are_valid phase_after is_blocking transition_is_legal
    may_append numbered append_record concat owned_detail is_at is_effect is_started is_completed
    single_ordered entry_is_backed_up backup_evidence_is_valid is_created single_between
    parents_are_created entry_is_applied is_check applied_evidence_is_valid rolled_back_after
    entry_is_rolled_back is_single rolled_back_evidence_is_valid never_enters find_first select
    index_recheck startup_rollback_verified
program = tt

abbrev hash : String
hash = "abcdef0123456789abcdef0123456789abcdef0123456789abcdef0123456789"

abbrev old_hash : String
old_hash = "0123456789abcdef0123456789abcdef0123456789abcdef0123456789abcdef"

abbrev file : RepoPath
file = record {
  canonical = "src/a.py";
  segments = "src" ∷ "a.py" ∷ [];
  identity = "src/a.py";
  display_name = "src/a.py";
}

abbrev entry : ApplyPlanEntry
entry = record {
  order = 1;
  path = file;
  operation = ChangeOperation.modify;
  expected_original_digest = some old_hash;
  new_digest = some hash;
  original_kind = some SupportedEntryKind.regular_file;
  new_kind = some SupportedEntryKind.regular_file;
  original_executable = some false;
  new_executable = some false;
  original_symlink_target = none;
  new_symlink_target = none;
  backup_relative_path = some "backups/1";
  payload_relative_path = some "payloads/1";
  backup_digest = some old_hash;
  payload_digest = some hash;
  created_parent_paths = [];
  target_parent_identity = some "dir";
}

abbrev plan : ApplyPlan
plan = record {
  transaction_id = "tx-1";
  baseline_digest = hash;
  changeset_digest = hash;
  index_digest_before = old_hash;
  target_root_identity = "root";
  entries = entry ∷ [];
  digest = hash;
}

abbrev phase_record : ℕ → JournalStage → ApplyPhase → Option String → JournalRecord
phase_record order stage phase digest = record {
  order = order;
  stage = stage;
  status = JournalStatus.completed;
  phase = some phase;
  path = none;
  detail = "";
  evidence_digest = digest;
}

abbrev effect : ℕ → JournalStage → JournalStatus → String → Option String → JournalRecord
effect order stage status detail digest = record {
  order = order;
  stage = stage;
  status = status;
  phase = none;
  path = some file;
  detail = detail;
  evidence_digest = digest;
}

abbrev check : ℕ → String → String → JournalRecord
check order detail digest = record {
  order = order;
  stage = JournalStage.verify;
  status = JournalStatus.completed;
  phase = none;
  path = none;
  detail = detail;
  evidence_digest = some digest;
}

abbrev applying_effect : JournalRecord
applying_effect = effect 6 JournalStage.apply JournalStatus.pending "apply effect pending" none

abbrev verified_effect : JournalRecord
verified_effect =
    effect 7 JournalStage.apply JournalStatus.completed "apply effect verified" (some hash)

abbrev started : List JournalRecord
started =
    phase_record 1 JournalStage.prepare ApplyPhase.preparing (some hash)
    ∷ effect 2 JournalStage.backup JournalStatus.pending "backup pending" none
    ∷ effect 3 JournalStage.backup JournalStatus.completed "backup verified" (some old_hash)
    ∷ phase_record 4 JournalStage.backup ApplyPhase.backup_ready (some hash)
    ∷ phase_record 5 JournalStage.apply ApplyPhase.applying none
    ∷ applying_effect
    ∷ []

abbrev finished : List JournalRecord
finished =
    started
    ++ (verified_effect
        ∷ check 8 "change set digest rechecked" hash
        ∷ check 9 "index digest rechecked" old_hash
        ∷ phase_record 10 JournalStage.verify ApplyPhase.applied (some hash)
        ∷ [])

abbrev undoing : List JournalRecord
undoing =
    started
    ++ (verified_effect
        ∷ phase_record 8 JournalStage.rollback ApplyPhase.rolling_back none
        ∷ effect 9 JournalStage.rollback JournalStatus.pending "rollback effect pending" none
        ∷ effect 10 JournalStage.rollback JournalStatus.completed "rollback effect verified"
            (some old_hash)
        ∷ check 11 "rollback index digest rechecked" old_hash
        ∷ [])

-- The rollback of one run of the program is accepted to its end.
undone :
    append_record plan undoing (startup_rollback_verified plan)
    ≡ some (undoing ++ (numbered undoing (startup_rollback_verified plan) ∷ []))
unfolding program
undone = refl

append_record-valid_example : records_are_valid plan (started ++ (verified_effect ∷ [])) ≡ true
unfolding program
append_record-valid_example =
    append_record-valid plan started (started ++ (verified_effect ∷ [])) verified_effect refl refl
      (omega arith) refl

is_blocking-Settled_example : (r : JournalRecord) × Memᴰ r finished × Settled plan finished r.order
unfolding program
is_blocking-Settled_example = is_blocking-Settled plan finished refl refl

effect-BackedUp_example : All (BackedUp started 6) (entry ∷ [])
unfolding program
effect-BackedUp_example =
    effect-BackedUp plan started applying_effect refl
      (Memᴰ.tail (Memᴰ.tail (Memᴰ.tail (Memᴰ.tail (Memᴰ.tail (Memᴰ.head refl)))))) refl refl

second_recheck_refused_example :
    (append_record plan undoing (index_recheck plan) ≡ some (rechecked plan undoing))
    × (append_record plan (rechecked plan undoing) (startup_rollback_verified plan) ≡ none)
unfolding program
second_recheck_refused_example = second_recheck_refused plan undoing refl refl refl
