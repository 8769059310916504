-- ===== src/Domain/Approvals/Bindings.antt =====
-- What an approval of each type must be bound to, field by field, and that the tests of
-- src/coding_harness/domain/approvals.py ask for exactly that.
use ai_coding_agent_harness.Base.{
  ◌&&◌, not, ◌==◌, ◌||◌, nat_comparable, if◌then◌else◌, not_iff, same_iff, map, length, Bool-cases,
  any, String, ◌≡◌, ◌≢◌, ◌⊎◌, ◌↔◌, refl, inl, inr, Bool, true, false, Option, none, some, List, [],
  ◌∷◌, all, All, arith, and_iff, true_iff, text_equals_iff, text_comparable,
}
use ai_coding_agent_harness.Domain.Enums.{task_state_eq}
use ai_coding_agent_harness.Domain.ApprovalModels.{
  Approval, ApprovalType, IgnoredEntry, BudgetPairs, texts_eq,
}
use ai_coding_agent_harness.Domain.Approvals.Fields.{
  IsGiven, IsGiven-iff, missing_iff, some_text_iff, nonempty_iff, all_iff, or_iff, IsNatural,
  IsNatural-iff,
}
use ai_coding_agent_harness.Domain.Approvals.{
  type_binding, contract_is_of_task, binding_is_valid, ignored_entries_are_valid, budget_binding,
  apply_binding, TaskState, is_digest, plan_binding, ignored_binding, delete_binding,
  entry_is_valid, action_binding, ContractVersion, is_text, pairs_are_valid, present, is_some_text,
}

abbrev pub IsText : String → Type 0
IsText s = is_text s ≡ true

-- Some pairs, and each with a number that is not negative.
abbrev pub ArePairs : BudgetPairs → Type 0
ArePairs pairs = (pairs ≢ []) × All (λ p. IsNatural p.1) pairs

pairs_iff : (pairs : BudgetPairs) → (pairs_are_valid pairs ≡ true) ↔ ArePairs pairs
unfolding pairs_are_valid
pairs_iff pairs = and_iff (nonempty_iff pairs) (all_iff _ (λ p. IsNatural-iff p.1) pairs)

abbrev pub IsEntry : IgnoredEntry → Type 0
IsEntry item = IsText item.0 × (IsText item.1 × (IsNatural item.2 × (is_digest item.3 ≡ true)))

IsEntry-iff : (item : IgnoredEntry) → (entry_is_valid item ≡ true) ↔ IsEntry item
unfolding entry_is_valid
IsEntry-iff item = and_iff (true_iff (is_text item.0)) (
    and_iff (true_iff (is_text item.1))
      (and_iff (IsNatural-iff item.2) (true_iff (is_digest item.3))))

-- The bindings of each type of approval.
abbrev pub IsPlanBound : Approval → Type 0
IsPlanBound a =
    (a.expected_state ≡ TaskState.awaiting_plan_approval)
    × ((a.target_identity ≡ a.plan_version.identity)
        × (IsGiven a.contract_version × IsGiven a.scope_digest))

abbrev pub IsDeleteBound : Approval → Type 0
IsDeleteBound a =
    IsGiven a.expected_content_digest
    × (IsGiven a.baseline_manifest_digest × IsGiven a.action_reason)

abbrev pub IsIgnoredBound : Approval → Type 0
IsIgnoredBound a =
    ((a.ignored_entries ≢ []) × All IsEntry a.ignored_entries)
    × ((map (λ item. item.0) a.ignored_entries ≡ a.normalized_paths)
        × (((a.ignored_input_mode ≡ some "read_only_input")
              ⊎ (a.ignored_input_mode ≡ some "writable_ephemeral"))
            × (((a.allowed_stages ≢ []) × All IsText a.allowed_stages)
                × (IsGiven a.sandbox_manifest_identity × (a.exportable_to_llm ≡ false)))))

-- One path; and the two kinds of action with their own bindings.
abbrev pub IsActionBound : Approval → Type 0
IsActionBound a =
    (a.expected_state ≡ TaskState.awaiting_action_approval)
    × ((a.contract_version ≡ none)
        × ((a.action_id ≡ some a.target_identity)
            × ((a.action_payload_digest ≡ some a.request_digest)
                × (((path : String) × ((a.normalized_paths ≡ path ∷ []) × IsText path))
                    × (((a.action_kind ≡ some "delete_file") × IsDeleteBound a)
                        ⊎ ((a.action_kind ≡ some "include_ignored_input") × IsIgnoredBound a))))))

abbrev pub IsBudgetBound : Approval → Type 0
IsBudgetBound a =
    (a.expected_state ≡ TaskState.awaiting_budget_approval)
    × ((a.contract_version ≡ none)
        × (IsGiven a.budget_version_identity
            × ((a.affected_dimensions ≢ [])
                × (ArePairs a.current_usage
                    × (ArePairs a.old_limits
                        × (ArePairs a.new_limits
                            × (ArePairs a.hard_limits × IsGiven a.extension_reason)))))))

abbrev pub IsApplyBound : Approval → Type 0
IsApplyBound a =
    (a.expected_state ≡ TaskState.ready_to_apply)
    × (IsGiven a.contract_version
        × (IsGiven a.changeset_digest
            × (IsGiven a.baseline_manifest_digest × (a.changeset_digest ≡ some a.target_identity))))

abbrev pub IsTypeBound : ApprovalType → Approval → Type 0
IsTypeBound ApprovalType.plan_approval a = IsPlanBound a
IsTypeBound ApprovalType.action_approval a = IsActionBound a
IsTypeBound ApprovalType.budget_approval a = IsBudgetBound a
IsTypeBound ApprovalType.apply_approval a = IsApplyBound a

-- The versions are the task's, and the bindings are those of the type.
abbrev pub IsOfTask : String → Option ContractVersion → Type 0
IsOfTask task none = Unit
IsOfTask task (some contract) = contract.task_id ≡ task

unfoldable pub IsWellBound : Approval → Type 0
IsWellBound a =
    (a.plan_version.task_id ≡ a.task_id)
    × (IsOfTask a.task_id a.contract_version × IsTypeBound a.approval_type a)

module _ (a : Approval) where
  plan_iff : (plan_binding a ≡ true) ↔ IsPlanBound a
  unfolding plan_binding
  plan_iff = and_iff (same_iff a.expected_state TaskState.awaiting_plan_approval) (
      and_iff (same_iff a.target_identity a.plan_version.identity)
        (and_iff (IsGiven-iff a.contract_version) (IsGiven-iff a.scope_digest)))

  delete_iff : (delete_binding a ≡ true) ↔ IsDeleteBound a
  unfolding delete_binding
  delete_iff =
      and_iff (IsGiven-iff a.expected_content_digest)
        (and_iff (IsGiven-iff a.baseline_manifest_digest) (IsGiven-iff a.action_reason))

  ignored_iff : (ignored_binding a ≡ true) ↔ IsIgnoredBound a
  unfolding ignored_binding ignored_entries_are_valid
  ignored_iff =
      and_iff
        (and_iff (nonempty_iff a.ignored_entries)
          (all_iff entry_is_valid IsEntry-iff a.ignored_entries))
        (and_iff (same_iff (map (λ item. item.0) a.ignored_entries) a.normalized_paths) (
          and_iff
            (or_iff (some_text_iff a.ignored_input_mode "read_only_input")
              (some_text_iff a.ignored_input_mode "writable_ephemeral"))
            (and_iff
              (and_iff (nonempty_iff a.allowed_stages)
                (all_iff is_text (λ s. true_iff (is_text s)) a.allowed_stages))
              (and_iff (IsGiven-iff a.sandbox_manifest_identity) (not_iff a.exportable_to_llm)))))

  budget_iff : (budget_binding a ≡ true) ↔ IsBudgetBound a
  unfolding budget_binding
  budget_iff = and_iff (same_iff a.expected_state TaskState.awaiting_budget_approval) (
      and_iff (missing_iff a.contract_version) (
        and_iff (IsGiven-iff a.budget_version_identity) (
          and_iff (nonempty_iff a.affected_dimensions) (
            and_iff (pairs_iff a.current_usage) (
              and_iff (pairs_iff a.old_limits) (
                and_iff (pairs_iff a.new_limits)
                  (and_iff (pairs_iff a.hard_limits) (IsGiven-iff a.extension_reason))))))))

  apply_iff : (apply_binding a ≡ true) ↔ IsApplyBound a
  unfolding apply_binding
  apply_iff = and_iff (same_iff a.expected_state TaskState.ready_to_apply) (
      and_iff (IsGiven-iff a.contract_version) (
        and_iff (IsGiven-iff a.changeset_digest) (
          and_iff (IsGiven-iff a.baseline_manifest_digest)
            (some_text_iff a.changeset_digest a.target_identity))))

one_path : List String → Bool
one_path paths = (length paths == 1) && all is_text paths

one_path_iff :
    (paths : List String)
    → (one_path paths ≡ true) ↔ ((path : String) × ((paths ≡ path ∷ []) × IsText path))
unfolding one_path
one_path_iff [] = (λ h. absurd (ground arith), λ (p, (e, t)). absurd (ground arith))
one_path_iff (p ∷ []) = (λ h. (p, (refl, ground arith)), λ (q, (e, t)). ground arith)
one_path_iff (p ∷ q ∷ more) = (λ h. absurd (ground arith), λ (r, (e, t)). absurd (ground arith))

all-not-any :
    (paths : List String) → any (λ path. not (is_text path)) paths ≡ not (all is_text paths)
all-not-any [] = refl
all-not-any (p ∷ paths) = let rest = all-not-any paths in ground arith

-- The tests of an action approval as one conjunction.
action_tests : Approval → Bool
action_tests a =
    (a.expected_state == TaskState.awaiting_action_approval)
    && (not (present a.contract_version)
        && (is_some_text a.action_id a.target_identity
            && (is_some_text a.action_payload_digest a.request_digest
                && (one_path a.normalized_paths
                    && ((is_some_text a.action_kind "delete_file" && delete_binding a)
                        || (is_some_text a.action_kind "include_ignored_input"
                            && ignored_binding a))))))

two_kinds :
    (kind : Option String)
    → is_some_text kind "delete_file" ≡ true
    → is_some_text kind "include_ignored_input" ≡ false
two_kinds none h = refl
two_kinds (some k) h =
    let same = (text_equals_iff k "delete_file").0 h in
    elim (Bool-cases (k == "include_ignored_input")) [
      | inr other ↦ other
      | inl both ↦
          let again = (text_equals_iff k "include_ignored_input").0 both in
          ground (arith, text_equals_iff "delete_file" "include_ignored_input")
    ]

-- The early return, and the two kinds that exclude each other.
early_return :
    (e c delete include i p l q d g : Bool)
    → (delete ≡ true → include ≡ false)
    → (if not e || (c || (not (delete || include) || (not i || (not p || (not l || not q)))))
        then false
        else if delete
        then d
        else g)
      ≡ (e && (not c && (i && (p && ((l && q) && ((delete && d) || (include && g)))))))
early_return e c true include i p l q d g apart = let other = apart refl in ground arith
early_return e c false include i p l q d g apart = ground arith

action_binding-tests : (a : Approval) → action_binding a ≡ action_tests a
unfolding action_binding action_tests one_path
action_binding-tests a =
    let paths = all-not-any a.normalized_paths in
    let shape =
      early_return (a.expected_state == TaskState.awaiting_action_approval)
        (present a.contract_version) (is_some_text a.action_kind "delete_file")
        (is_some_text a.action_kind "include_ignored_input")
        (is_some_text a.action_id a.target_identity)
        (is_some_text a.action_payload_digest a.request_digest) (length a.normalized_paths == 1)
        (all is_text a.normalized_paths) (delete_binding a) (ignored_binding a)
        (two_kinds a.action_kind) in
    rw paths shape

action_iff : (a : Approval) → (action_binding a ≡ true) ↔ IsActionBound a
unfolding action_tests
action_iff a =
    let tests = and_iff (same_iff a.expected_state TaskState.awaiting_action_approval) (
      and_iff (missing_iff a.contract_version) (
        and_iff (some_text_iff a.action_id a.target_identity) (
          and_iff (some_text_iff a.action_payload_digest a.request_digest) (
            and_iff (one_path_iff a.normalized_paths) (
              or_iff (and_iff (some_text_iff a.action_kind "delete_file") (delete_iff a)) (
                and_iff (some_text_iff a.action_kind "include_ignored_input")
                  (ignored_iff a))))))) in
    rw (action_binding-tests a) tests

type_iff : (type : ApprovalType) (a : Approval) → (type_binding type a ≡ true) ↔ IsTypeBound type a
unfolding type_binding
type_iff ApprovalType.plan_approval a = plan_iff a
type_iff ApprovalType.action_approval a = action_iff a
type_iff ApprovalType.budget_approval a = budget_iff a
type_iff ApprovalType.apply_approval a = apply_iff a

IsOfTask-iff :
    (a : Approval) (contract : Option ContractVersion)
    → (contract_is_of_task a contract ≡ true) ↔ IsOfTask a.task_id contract
unfolding contract_is_of_task
IsOfTask-iff a none = (λ h. tt, λ h. refl)
IsOfTask-iff a (some contract) = same_iff contract.task_id a.task_id

-- `_binding_is_valid` asks for the bindings that are written out.
pub binding_is_valid_iff : (a : Approval) → (binding_is_valid a ≡ true) ↔ IsWellBound a
unfolding binding_is_valid IsWellBound type_binding contract_is_of_task
binding_is_valid_iff a =
    let tests =
      and_iff (same_iff a.plan_version.task_id a.task_id)
        (and_iff (IsOfTask-iff a a.contract_version) (type_iff a.approval_type a)) in
    (λ h. tests.0 (ground arith), λ h. let all_true = tests.1 h in ground arith)
