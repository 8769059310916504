-- ===== src/Domain/AcceptanceModels.antt =====
-- The records of src/coding_harness/domain/acceptance.py and the checks of their constructors.
-- Integers that a constructor checks to be non-negative are natural numbers.
use ai_coding_agent_harness.Base.{
  ℕ, String, Bool, true, false, not, ◌&&◌, Option, none, some, List, [], ◌∷◌, map, ◌==◌, ◌!=◌,
  text_comparable, Comparable, comparable_by, all, any, nonempty, ltb, leb,
}
use ai_coding_agent_harness.Base.Int.{pos, leb_ℤ}
use ai_coding_agent_harness.Domain.Models.{ContractVersion}
use ai_coding_agent_harness.Domain.Text.{is_text, is_digest, text_length}

pub data AcceptanceConditionKind : Type 0 where
  machine user_confirmation : AcceptanceConditionKind

pub data ConditionStatus : Type 0 where
  not_run passed failed blocked : ConditionStatus

pub data MachineEvidenceKind : Type 0 where
  validation : MachineEvidenceKind

pub data UserConfirmationAction : Type 0 where
  confirm reject : UserConfirmationAction

unfoldable pub ConditionStatus-discrete : Discrete ConditionStatus
ConditionStatus-discrete = hlevel

unfoldable pub MachineEvidenceKind-discrete : Discrete MachineEvidenceKind
MachineEvidenceKind-discrete = hlevel

instance abbrev pub status_comparable : Comparable ConditionStatus
status_comparable = comparable_by ConditionStatus-discrete

instance abbrev pub evidence_kind_comparable : Comparable MachineEvidenceKind
evidence_kind_comparable = comparable_by MachineEvidenceKind-discrete

-- `value is not None and test(value)`, `value is None or test(value)`, and `option == value`.
abbrev pub some_holds {ℓ} : {A : Type ℓ} → (A → Bool) → Option A → Bool
some_holds p none = false
some_holds p (some a) = p a

abbrev pub none_or {ℓ} : {A : Type ℓ} → (A → Bool) → Option A → Bool
none_or p none = true
none_or p (some a) = p a

-- `_is_bounded_text`
pub is_bounded_text : String → Bool
is_bounded_text value = is_text value && leb (text_length value) 256

-- `_valid_contract_version` of a `ContractVersion`, for a task.
unfoldable pub valid_contract_version : String → ContractVersion → Bool
valid_contract_version task_id value =
    is_text value.identity
    && (is_text value.task_id
        && ((value.task_id == task_id)
            && (leb_ℤ (pos 0) value.sequence
                && (is_digest value.content_digest && is_text value.display_text))))

pub record AcceptanceCondition : Type 0 where
  pub identity : String
  pub display_text : String
  pub kind : AcceptanceConditionKind
  pub required : Bool
  pub status : ConditionStatus
  pub expected_contract_version_identity : String
  pub expected_evidence_kind : Option MachineEvidenceKind
  pub expected_producer_identity : Option String
  pub expected_command_identity : Option String
  pub expected_input_digest : Option String
  pub expected_baseline_manifest_digest : Option String
  pub expected_changeset_digest : Option String
  pub reason : String
  pub source_result_digest : Option String

abbrev pub is_absent {ℓ} : {A : Type ℓ} → Option A → Bool
is_absent none = true
is_absent (some _) = false

-- The bindings of a condition, for its kind.
unfoldable pub bindings_are_valid : AcceptanceConditionKind → AcceptanceCondition → Bool
bindings_are_valid AcceptanceConditionKind.machine c =
    not (is_absent c.expected_evidence_kind)
    && (all (some_holds is_text) (c.expected_producer_identity ∷ c.expected_command_identity ∷ [])
        && all (some_holds is_digest) (
            c.expected_input_digest ∷ c.expected_baseline_manifest_digest
            ∷ c.expected_changeset_digest ∷ []))
bindings_are_valid AcceptanceConditionKind.user_confirmation c =
    is_absent c.expected_evidence_kind
    && all is_absent (
        c.expected_producer_identity ∷ c.expected_command_identity ∷ c.expected_input_digest
        ∷ c.expected_baseline_manifest_digest ∷ c.expected_changeset_digest ∷ [])

-- `AcceptanceCondition.__post_init__`
unfoldable pub condition_is_valid : AcceptanceCondition → Bool
condition_is_valid c =
    (is_text c.identity && is_text c.display_text)
    && (is_text c.expected_contract_version_identity
        && (is_text c.reason
            && (none_or is_digest c.source_result_digest && bindings_are_valid c.kind c)))

pub record AcceptanceHistoryEvent : Type 0 where
  pub previous_contract_version_identity : String
  pub new_contract_version_identity : String
  pub condition_identity : String
  pub previous_status : ConditionStatus
  pub new_status : ConditionStatus
  pub source_identity : String
  pub source_kind : String
  pub source_digest : String
  pub request_digest : Option String
  pub idempotency_key : Option String

-- `AcceptanceHistoryEvent.__post_init__`
unfoldable pub event_is_valid : AcceptanceHistoryEvent → Bool
event_is_valid e =
    all is_text (
      e.previous_contract_version_identity ∷ e.new_contract_version_identity ∷ e.condition_identity
      ∷ e.source_identity ∷ e.source_kind ∷ [])
    && (is_digest e.source_digest
        && (none_or is_digest e.request_digest && none_or is_text e.idempotency_key))

pub record AcceptanceContract : Type 0 where
  pub task_id : String
  pub version : ContractVersion
  pub conditions : List AcceptanceCondition
  pub approved : Bool
  pub history : List AcceptanceHistoryEvent

-- `len(set(identities)) == len(identities)`
unfoldable pub are_unique : List String → Bool
are_unique [] = true
are_unique (x ∷ xs) = not (any (λ y. y == x) xs) && are_unique xs

abbrev pub identities : List AcceptanceCondition → List String
identities conditions = map (λ c. c.identity) conditions

-- `AcceptanceContract.__post_init__`
unfoldable pub contract_is_valid : AcceptanceContract → Bool
contract_is_valid c =
    is_text c.task_id
    && (valid_contract_version c.task_id c.version
        && (nonempty c.conditions
            && (are_unique (identities c.conditions)
                && all (λ d. d.expected_contract_version_identity == c.version.identity)
                    c.conditions)))

-- `AcceptanceContract.approval_version_identity`
abbrev pub approval_version_identity : AcceptanceContract → Option String
approval_version_identity c = elim c.approved [ true ↦ some c.version.identity | false ↦ none ]

pub record MachineEvidence : Type 0 where
  pub identity : String
  pub condition_identity : String
  pub contract_version_identity : String
  pub kind : MachineEvidenceKind
  pub producer_identity : String
  pub command_identity : String
  pub input_digest : String
  pub baseline_manifest_digest : String
  pub changeset_digest : String
  pub result_digest : String
  pub status : ConditionStatus
  pub sequence : ℕ
  pub occurred_at : ℕ
  pub bounded_summary : String
  pub expected_status : ConditionStatus

-- `MachineEvidence.__post_init__`
unfoldable pub evidence_is_valid : MachineEvidence → Bool
evidence_is_valid e =
    all is_text (
      e.identity ∷ e.condition_identity ∷ e.contract_version_identity ∷ e.producer_identity
      ∷ e.command_identity ∷ [])
    && ((e.status != ConditionStatus.not_run)
        && (all is_digest (
              e.input_digest ∷ e.baseline_manifest_digest ∷ e.changeset_digest ∷ e.result_digest
              ∷ [])
            && (ltb 0 e.sequence && is_bounded_text e.bounded_summary)))

pub record UserConfirmationCommand : Type 0 where
  pub identity : String
  pub task_id : String
  pub contract_version_identity : String
  pub condition_identity : String
  pub expected_status : ConditionStatus
  pub action : UserConfirmationAction
  pub request_digest : String
  pub idempotency_key : String
  pub occurred_at : ℕ
  pub authority : String

-- `UserConfirmationCommand.__post_init__`
unfoldable pub command_is_valid : UserConfirmationCommand → Bool
command_is_valid c =
    all is_text (
      c.identity ∷ c.task_id ∷ c.contract_version_identity ∷ c.condition_identity
      ∷ c.idempotency_key ∷ [])
    && (is_digest c.request_digest && (c.authority == "user"))

pub record AcceptanceUpdateResult : Type 0 where
  pub accepted : Bool
  pub conflict : Bool
  pub duplicate : Bool
  pub reason : String
  pub contract : AcceptanceContract

pub record ConditionEvaluation : Type 0 where
  pub condition_identity : String
  pub kind : AcceptanceConditionKind
  pub required : Bool
  pub status : ConditionStatus
  pub satisfied : Bool

pub record AcceptanceEvaluation : Type 0 where
  pub contract_version_identity : Option String
  pub condition_results : List ConditionEvaluation
  pub unmet_required_conditions : List String
  pub eligible_for_apply : Bool
  pub should_apply : Bool
  pub reason : String
  pub audit_digest : String
