-- ===== src/Domain/ApprovalModels.antt =====
-- The records of src/coding_harness/domain/approvals.py. Revisions and times that a constructor
-- checks to be non-negative are natural numbers. An object in a dimension's place is a member of
-- `BudgetDimension`, a plain text that equals a member, or a foreign object, which is known by a
-- number.
use ai_coding_agent_harness.Base.{
  nat_comparable, ◌==◌, ◌≡◌, ◌+◌, arith, refl, Comparable, comparable_by, String-discrete, ℕ,
  String, Bool, true, false, Option, none, some, List, ℕ_discrete, ◌&&◌, all, [], ◌∷◌, ltb,
}
use ai_coding_agent_harness.Base.Int.{int_eq, ℤ-discrete, ℤ}
use ai_coding_agent_harness.Domain.Enums.{TaskState}
use ai_coding_agent_harness.Domain.Models.{PlanVersion, ContractVersion}
use ai_coding_agent_harness.Domain.Budgets.{
  budget_dimension_eq, BudgetDimension, BudgetDimension-discrete,
}
use ai_coding_agent_harness.Domain.Text.{is_text, is_digest, optional_text_is_valid}

pub data ApprovalType : Type 0 where
  plan_approval action_approval budget_approval apply_approval : ApprovalType

unfoldable pub ApprovalType-discrete : Discrete ApprovalType
ApprovalType-discrete = hlevel

-- The value of a member.
unfoldable pub type_value : ApprovalType → String
type_value ApprovalType.plan_approval = "PLAN_APPROVAL"
type_value ApprovalType.action_approval = "ACTION_APPROVAL"
type_value ApprovalType.budget_approval = "BUDGET_APPROVAL"
type_value ApprovalType.apply_approval = "APPLY_APPROVAL"

pub data BudgetItem : Type 0 where
  member : BudgetDimension → BudgetItem
  named : BudgetDimension → BudgetItem
  foreign : ℕ → BudgetItem

unfoldable pub BudgetItem-discrete : Discrete BudgetItem
unfolding BudgetDimension-discrete ℕ_discrete
BudgetItem-discrete = hlevel (BudgetDimension-discrete, ℕ_discrete)

-- `==` on two items: a `StrEnum` member equals its text.
unfoldable pub item_equals : BudgetItem → BudgetItem → Bool
item_equals (BudgetItem.member d) (BudgetItem.member e) = d == e
item_equals (BudgetItem.member d) (BudgetItem.named e) = d == e
item_equals (BudgetItem.named d) (BudgetItem.member e) = d == e
item_equals (BudgetItem.named d) (BudgetItem.named e) = d == e
item_equals (BudgetItem.foreign j) (BudgetItem.foreign k) = j == k
item_equals _ _ = false

-- A path, a digest's source, a size and a digest.
abbrev pub IgnoredEntry : Type 0
IgnoredEntry = String × String × ℤ × String

abbrev pub BudgetPairs : Type 0
BudgetPairs = List (BudgetItem × ℤ)

abbrev pub pair_equals : BudgetItem × ℤ → BudgetItem × ℤ → Bool
pair_equals p q = item_equals p.0 q.0 && (p.1 == q.1)

-- `==` on two tuples.
unfoldable pub lists_equal {ℓ} : {A : Type ℓ} → (A → A → Bool) → List A → List A → Bool
lists_equal test [] [] = true
lists_equal test (x ∷ xs) (y ∷ ys) = test x y && lists_equal test xs ys
lists_equal test _ _ = false

pub record Approval : Type 0 where
  pub identity : String
  pub revision : ℕ
  pub display_text : String
  pub approval_type : ApprovalType
  pub task_id : String
  pub target_identity : String
  pub expected_state : TaskState
  pub plan_version : PlanVersion
  pub contract_version : Option ContractVersion
  pub request_digest : String
  pub policy_record_identity : String
  pub policy_record_digest : String
  pub reason_code : String
  pub created_at : ℕ
  pub expires_at : ℕ
  pub consumed : Bool
  pub consumed_at : Option ℕ
  pub revoked : Bool
  pub revoked_at : Option ℕ
  pub idempotency_key : String
  pub scope_digest : Option String
  pub action_kind : Option String
  pub action_id : Option String
  pub normalized_paths : List String
  pub expected_content_digest : Option String
  pub baseline_manifest_digest : Option String
  pub action_payload_digest : Option String
  pub action_reason : Option String
  pub ignored_entries : List IgnoredEntry
  pub ignored_input_mode : Option String
  pub allowed_stages : List String
  pub sandbox_manifest_identity : Option String
  pub exportable_to_llm : Bool
  pub changeset_digest : Option String
  pub budget_version_identity : Option String
  pub affected_dimensions : List BudgetItem
  pub current_usage : BudgetPairs
  pub old_limits : BudgetPairs
  pub new_limits : BudgetPairs
  pub hard_limits : BudgetPairs
  pub extension_reason : Option String

-- `self.consumed != (self.consumed_at is not None)`, negated.
unfoldable pub stamp_matches : Bool → Option ℕ → Bool
stamp_matches true (some _) = true
stamp_matches false none = true
stamp_matches _ _ = false

unfoldable pub optional_digest_is_valid : Option String → Bool
optional_digest_is_valid none = true
optional_digest_is_valid (some s) = is_digest s

unfoldable pub required_texts : Approval → List String
required_texts a =
    a.identity ∷ a.display_text ∷ a.task_id ∷ a.target_identity ∷ a.policy_record_identity
    ∷ a.reason_code ∷ a.idempotency_key ∷ []

unfoldable pub required_digests : Approval → List String
required_digests a = a.request_digest ∷ a.policy_record_digest ∷ []

unfoldable pub optional_digests : Approval → List (Option String)
optional_digests a =
    a.scope_digest ∷ a.expected_content_digest ∷ a.baseline_manifest_digest
    ∷ a.action_payload_digest ∷ a.changeset_digest ∷ []

unfoldable pub optional_texts : Approval → List (Option String)
optional_texts a =
    a.action_kind ∷ a.action_id ∷ a.action_reason ∷ a.ignored_input_mode
    ∷ a.sandbox_manifest_identity ∷ a.budget_version_identity ∷ a.extension_reason ∷ []

-- `Approval.__post_init__`, without what the types already say: whether it accepts the fields.
unfoldable pub approval_is_valid : Approval → Bool
unfolding stamp_matches optional_digest_is_valid
approval_is_valid a =
    (ltb 0 a.revision && all is_text (required_texts a))
    && (all is_digest (required_digests a)
        && (ltb a.created_at a.expires_at
            && ((stamp_matches a.consumed a.consumed_at && stamp_matches a.revoked a.revoked_at)
                && (all optional_digest_is_valid (optional_digests a)
                    && all optional_text_is_valid (optional_texts a)))))

-- A conjunction as `approval_is_valid` has it, with the tests replaced that a change touches.
restamp :
    (r r' t d w c c' v v' e f : Bool)
    → (r && t) && (d && (w && ((c && v) && (e && f)))) ≡ true
    → (r' ≡ true) × (c ≡ true → c' ≡ true) × (v ≡ true → v' ≡ true)
    → (r' && t) && (d && (w && ((c' && v') && (e && f)))) ≡ true
restamp r r' t d w c c' v v' e f h (next, consumed, revoked) =
    ground (arith, consumed (ground arith), revoked (ground arith))

module _ (a : Approval) (n : ℕ) (valid : approval_is_valid a ≡ true) where
  restamped :
      (c v : Bool)
      → (stamp_matches a.consumed a.consumed_at ≡ true → c ≡ true)
      → (stamp_matches a.revoked a.revoked_at ≡ true → v ≡ true)
      → (ltb 0 (a.revision + 1) && all is_text (required_texts a))
          && (all is_digest (required_digests a)
              && (ltb a.created_at a.expires_at
                  && ((c && v)
                      && (all optional_digest_is_valid (optional_digests a)
                          && all optional_text_is_valid (optional_texts a)))))
        ≡ true
  unfolding approval_is_valid
  restamped c v keeps_c keeps_v =
      restamp (ltb 0 a.revision) (ltb 0 (a.revision + 1)) (all is_text (required_texts a))
        (all is_digest (required_digests a)) (ltb a.created_at a.expires_at)
        (stamp_matches a.consumed a.consumed_at) c (stamp_matches a.revoked a.revoked_at) v
        (all optional_digest_is_valid (optional_digests a))
        (all optional_text_is_valid (optional_texts a)) valid (ground arith, keeps_c, keeps_v)

  -- The next revision of a valid record, stamped with a time, is valid.
  pub consumed_is_valid :
      approval_is_valid
        (record a { revision = a.revision + 1; consumed = true; consumed_at = some n })
      ≡ true
  unfolding approval_is_valid stamp_matches required_texts required_digests optional_digests
      optional_texts
  consumed_is_valid = restamped true (stamp_matches a.revoked a.revoked_at) (λ h. refl) (λ h. h)

  pub revoked_is_valid :
      approval_is_valid
        (record a { revision = a.revision + 1; revoked = true; revoked_at = some n })
      ≡ true
  unfolding approval_is_valid stamp_matches required_texts required_digests optional_digests
      optional_texts
  revoked_is_valid = restamped (stamp_matches a.consumed a.consumed_at) true (λ h. h) (λ h. refl)

pub record PresentedApprovalReference : Type 0 where
  pub identity : String
  pub revision : ℕ

pub record ApprovalExecutionContext : Type 0 where
  pub approval_type : ApprovalType
  pub task_id : String
  pub target_identity : String
  pub expected_state : TaskState
  pub plan_version_identity : String
  pub contract_version_identity : Option String
  pub request_digest : String
  pub policy_record_identity : String
  pub policy_record_digest : String
  pub reason_code : String
  pub idempotency_key : String
  pub scope_digest : Option String
  pub action_kind : Option String
  pub action_id : Option String
  pub normalized_paths : List String
  pub expected_content_digest : Option String
  pub baseline_manifest_digest : Option String
  pub action_payload_digest : Option String
  pub action_reason : Option String
  pub ignored_entries : List IgnoredEntry
  pub ignored_input_mode : Option String
  pub allowed_stages : List String
  pub sandbox_manifest_identity : Option String
  pub exportable_to_llm : Bool
  pub changeset_digest : Option String
  pub budget_version_identity : Option String
  pub affected_dimensions : List BudgetItem
  pub current_usage : BudgetPairs
  pub old_limits : BudgetPairs
  pub new_limits : BudgetPairs
  pub hard_limits : BudgetPairs
  pub extension_reason : Option String

pub record ApprovalResult : Type 0 where
  pub permitted : Bool
  pub conflict : Bool
  pub side_effect_permitted : Bool
  pub reason : String
  pub approval : Approval
  pub previous_revision : ℕ
  pub expected_revision : ℤ
  pub new_revision : Option ℕ

unfoldable pub OptionText-discrete : Discrete (Option String)
unfolding String-discrete
OptionText-discrete = hlevel String-discrete

unfoldable pub Texts-discrete : Discrete (List String)
unfolding String-discrete
Texts-discrete = hlevel String-discrete

unfoldable pub Entries-discrete : Discrete (List IgnoredEntry)
unfolding String-discrete ℤ-discrete
Entries-discrete = hlevel (String-discrete, ℤ-discrete)

unfoldable pub Items-discrete : Discrete (List BudgetItem)
unfolding BudgetItem-discrete
Items-discrete = hlevel BudgetItem-discrete

unfoldable pub Pairs-discrete : Discrete BudgetPairs
unfolding BudgetItem-discrete ℤ-discrete
Pairs-discrete = hlevel (BudgetItem-discrete, ℤ-discrete)

unfoldable pub Bool-discrete : Discrete Bool
Bool-discrete = hlevel

instance abbrev pub approval_type_eq : Comparable ApprovalType
approval_type_eq = comparable_by ApprovalType-discrete

instance abbrev pub option_text_eq : Comparable (Option String)
option_text_eq = comparable_by OptionText-discrete

instance abbrev pub texts_eq : Comparable (List String)
texts_eq = comparable_by Texts-discrete

instance abbrev pub entries_eq : Comparable (List IgnoredEntry)
entries_eq = comparable_by Entries-discrete

instance abbrev pub items_eq : Comparable (List BudgetItem)
items_eq = comparable_by Items-discrete

instance abbrev pub pairs_eq : Comparable BudgetPairs
pairs_eq = comparable_by Pairs-discrete

instance abbrev pub bool_eq : Comparable Bool
bool_eq = comparable_by Bool-discrete
