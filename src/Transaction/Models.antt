-- ===== src/Transaction/Models.antt =====
-- The plan and the journal's records, src/coding_harness/transaction/models.py, and the paths,
-- operations and kinds that they use, from src/coding_harness/workspace. An order that a
-- constructor checks to be positive is a natural number.
use ai_coding_agent_harness.Base.{
  ℕ, String, Bool, not, ◌&&◌, Option, List, Comparable, comparable_by, ltb, leb,
}
use ai_coding_agent_harness.Domain.Text.{utf8_length, has_nul, is_digest}
use ai_coding_agent_harness.Domain.AcceptanceModels.{none_or}

pub data ApplyPhase : Type 0 where
  preparing backup_ready applying applied rolling_back rolled_back recovery_required : ApplyPhase

pub data JournalStage : Type 0 where
  prepare backup apply rollback verify recovery : JournalStage

pub data JournalStatus : Type 0 where
  pending completed : JournalStatus

pub data ChangeOperation : Type 0 where
  add modify delete : ChangeOperation

pub data SupportedEntryKind : Type 0 where
  regular_file symlink : SupportedEntryKind

unfoldable pub ApplyPhase-discrete : Discrete ApplyPhase
ApplyPhase-discrete = hlevel

unfoldable pub JournalStage-discrete : Discrete JournalStage
JournalStage-discrete = hlevel

unfoldable pub JournalStatus-discrete : Discrete JournalStatus
JournalStatus-discrete = hlevel

instance abbrev pub phase_comparable : Comparable ApplyPhase
phase_comparable = comparable_by ApplyPhase-discrete

instance abbrev pub stage_comparable : Comparable JournalStage
stage_comparable = comparable_by JournalStage-discrete

instance abbrev pub status_comparable : Comparable JournalStatus
status_comparable = comparable_by JournalStatus-discrete

-- `RepoPath`; two paths are the same if their identities are.
pub record RepoPath : Type 0 where
  pub canonical : String
  pub segments : List String
  pub identity : String
  pub display_name : String

pub record ApplyPlanEntry : Type 0 where
  pub order : ℕ
  pub path : RepoPath
  pub operation : ChangeOperation
  pub expected_original_digest : Option String
  pub new_digest : Option String
  pub original_kind : Option SupportedEntryKind
  pub new_kind : Option SupportedEntryKind
  pub original_executable : Option Bool
  pub new_executable : Option Bool
  pub original_symlink_target : Option String
  pub new_symlink_target : Option String
  pub backup_relative_path : Option String
  pub payload_relative_path : Option String
  pub backup_digest : Option String
  pub payload_digest : Option String
  pub created_parent_paths : List RepoPath
  pub target_parent_identity : Option String

pub record ApplyPlan : Type 0 where
  pub transaction_id : String
  pub baseline_digest : String
  pub changeset_digest : String
  pub index_digest_before : String
  pub target_root_identity : String
  pub entries : List ApplyPlanEntry
  pub digest : String

pub record JournalRecord : Type 0 where
  pub order : ℕ
  pub stage : JournalStage
  pub status : JournalStatus
  pub phase : Option ApplyPhase
  pub path : Option RepoPath
  pub detail : String
  pub evidence_digest : Option String

-- `JournalRecord.__post_init__`, without what the types already say.
unfoldable pub record_is_valid : JournalRecord → Bool
record_is_valid r =
    ltb 0 r.order
    && (not (has_nul r.detail)
        && (leb (utf8_length r.detail) 1024 && none_or is_digest r.evidence_digest))
