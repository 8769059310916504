-- ===== src/Transaction/Journal/Restart.antt =====
-- The last two records of a rollback, as `RecoveryCoordinator.recover` of
-- src/coding_harness/transaction/recovery.py writes them at the start of the program.
use mathlib.Core.List.{append_assoc}
use ai_coding_agent_harness.Base.{
  length-snoc, dec_equals_iff, leb, ℕ, ◌+◌, ◌≤◌, Bool, true, false, not, ◌&&◌, Option, none, some,
  List, [], ◌∷◌, ◌++◌, ◌≡◌, refl, inl, inr, arith, Option-cases, Bool-cases, any, length, select,
  nat_comparable,
}
use ai_coding_agent_harness.Domain.Text.{utf8_length, is_digest, has_nul}
use ai_coding_agent_harness.Domain.ApprovalModels.{OptionText-discrete, option_text_eq}
use ai_coding_agent_harness.Transaction.Models.{
  ApplyPhase, JournalStage, JournalStatus, ApplyPlan, JournalRecord, ApplyPhase-discrete,
  JournalStage-discrete, JournalStatus-discrete, phase_comparable, record_is_valid,
}
use ai_coding_agent_harness.Transaction.Journal.{
  validate_from, phase_is_valid, latest_phase, nonphase_is_valid, verify_record_is_valid,
  has_evidence, sequence_is_valid, may_append, numbered, append_record,
}
use ai_coding_agent_harness.Transaction.Journal.Evidence.{
  is_effect, is_check, is_single, rolled_back_evidence_is_valid,
}

-- The record of a verified index, and that of the phase.
unfoldable pub index_recheck : ApplyPlan → JournalRecord
index_recheck plan = record {
  order = 0;
  stage = JournalStage.verify;
  status = JournalStatus.completed;
  phase = none;
  path = none;
  detail = "rollback index digest rechecked";
  evidence_digest = some plan.index_digest_before;
}

unfoldable pub startup_rollback_verified : ApplyPlan → JournalRecord
startup_rollback_verified plan = record {
  order = 0;
  stage = JournalStage.verify;
  status = JournalStatus.completed;
  phase = some ApplyPhase.rolled_back;
  path = none;
  detail = "startup rollback verified";
  evidence_digest = some plan.digest;
}

abbrev pub has_index_check : ApplyPlan → ℕ → List JournalRecord → Bool
has_index_check plan bound records =
    any (is_check "rollback index digest rechecked" plan.index_digest_before bound) records

select_more :
    (p : JournalRecord → Bool) (xs : List JournalRecord) (y : JournalRecord)
    (zs : List JournalRecord)
    → p y ≡ true
    → (x : JournalRecord) × (more : List JournalRecord) × (select p (xs ++ (y ∷ zs)) ≡ x ∷ more)
unfolding select
select_more p [] y zs passes = (y, select p zs, ground arith)
select_more p (x ∷ xs) y zs passes = elim (Bool-cases (p x)) [
  | inl here ↦ (x, select p (xs ++ (y ∷ zs)), ground arith)
  | inr there ↦ let (w, more, rest) = select_more p xs y zs passes in (w, more, ground arith)
]

two_are_not_single :
    (p : JournalRecord → Bool) (xs : List JournalRecord) (y : JournalRecord)
    (zs : List JournalRecord)
    → any p xs ≡ true
    → p y ≡ true
    → is_single (select p (xs ++ (y ∷ zs))) ≡ false
unfolding select is_single
two_are_not_single p [] y zs one passes = absurd (ground arith)
two_are_not_single p (x ∷ xs) y zs one passes = elim (Bool-cases (p x)) [
  | inl here ↦ let (w, more, rest) = select_more p xs y zs passes in ground arith
  | inr there ↦ let rest = two_are_not_single p xs y zs (ground arith) passes in ground arith
]

-- A phase at the end of a valid sequence has its evidence.
last_evidence :
    (plan : ApplyPlan) (records : List JournalRecord) (current : Option ApplyPhase)
    (is_first : Bool)
    → (rest : List JournalRecord) (r : JournalRecord) (p : ApplyPhase) → r.phase ≡ some p
    → validate_from plan records current is_first (rest ++ (r ∷ [])) ≡ true
    → has_evidence plan records r.order p ≡ true
unfolding validate_from phase_is_valid
last_evidence plan records current is_first [] r p changes valid = ground arith
last_evidence plan records current is_first (s ∷ rest) r p changes valid =
    elim (Option-cases s.phase) [
      | inl plain ↦ last_evidence plan records current false rest r p changes (ground arith)
      | inr (q, enters) ↦ last_evidence plan records (some q) false rest r p changes (ground arith)
    ]

module _ (plan : ApplyPlan) (n m : ℕ) (wider : n ≤ m) where
  is_check_later :
      (r : JournalRecord)
      → is_check "rollback index digest rechecked" plan.index_digest_before n r ≡ true
      → is_check "rollback index digest rechecked" plan.index_digest_before m r ≡ true
  unfolding is_check
  is_check_later r one = ground arith

  check_later :
      (records : List JournalRecord)
      → has_index_check plan n records ≡ true
      → has_index_check plan m records ≡ true
  check_later [] one = absurd (ground arith)
  check_later (r ∷ rest) one =
      elim (Bool-cases (is_check "rollback index digest rechecked" plan.index_digest_before n r)) [
        | inl here ↦ let later = is_check_later r here in ground arith
        | inr there ↦ let later = check_later rest (ground arith) in ground arith
      ]

-- The journal after one more verification of the index.
abbrev pub rechecked : ApplyPlan → List JournalRecord → List JournalRecord
rechecked plan records = records ++ (numbered records (index_recheck plan) ∷ [])

detail_fits :
    (not (has_nul "rollback index digest rechecked")
      && leb (utf8_length "rollback index digest rechecked") 1024)
    ≡ true
unfolding has_nul utf8_length
detail_fits = refl

recheck_accepted :
    (plan : ApplyPlan) (records : List JournalRecord)
    → is_digest plan.index_digest_before ≡ true
    → latest_phase records ≡ some ApplyPhase.rolling_back
    → append_record plan records (index_recheck plan) ≡ some (rechecked plan records)
unfolding append_record may_append record_is_valid numbered index_recheck nonphase_is_valid
    verify_record_is_valid ApplyPhase-discrete JournalStatus-discrete
recheck_accepted plan records digest rolling =
    let fits = detail_fits in
    let same =
      (dec_equals_iff OptionText-discrete (some plan.index_digest_before)
          (some plan.index_digest_before)).1
        refl in
    ground arith

-- The record that is appended is one more verification of the index.
recheck_is_check :
    (plan : ApplyPlan) (records : List JournalRecord)
    → is_check "rollback index digest rechecked" plan.index_digest_before
        (length (rechecked plan records) + 1)
        (numbered records (index_recheck plan))
      ≡ true
unfolding is_check is_effect numbered index_recheck JournalStage-discrete JournalStatus-discrete
recheck_is_check plan records =
    let same =
      (dec_equals_iff OptionText-discrete (some plan.index_digest_before)
          (some plan.index_digest_before)).1
        refl in
    let size = length-snoc records (numbered records (index_recheck plan)) in ground arith

two_checks_refused :
    (plan : ApplyPlan) (records : List JournalRecord)
    → has_index_check plan (length records + 1) records ≡ true
    → append_record plan (rechecked plan records) (startup_rollback_verified plan) ≡ none
unfolding append_record may_append sequence_is_valid startup_rollback_verified numbered has_evidence
    rolled_back_evidence_is_valid
two_checks_refused plan records one =
    let done = numbered (rechecked plan records) (startup_rollback_verified plan) in
    let size = length-snoc records (numbered records (index_recheck plan)) in
    let double =
      two_are_not_single
        (is_check "rollback index digest rechecked" plan.index_digest_before
          (length (rechecked plan records) + 1))
        records (numbered records (index_recheck plan)) (done ∷ [])
        (check_later plan (length records + 1) (length (rechecked plan records) + 1) (omega arith)
          records one)
        (recheck_is_check plan records) in
    elim (Bool-cases (sequence_is_valid plan (rechecked plan records ++ (done ∷ [])))) [
      | inr refused ↦ ground arith
      | inl accepted ↦
          let evidence =
            last_evidence plan (rechecked plan records ++ (done ∷ [])) none true
              (rechecked plan records) done ApplyPhase.rolled_back refl accepted in
          let together : is_single (
                select
                  (is_check "rollback index digest rechecked" plan.index_digest_before done.order)
                  (rechecked plan records ++ (done ∷ [])))
              ≡ false =
            rw (append_assoc records (numbered records (index_recheck plan) ∷ []) (done ∷ []))
              double in
          absurd (ground arith)
    ]

-- A rollback that was stopped between its last two records is never finished: when a journal that
-- is rolling back holds a verification of the index already, the recovery at the next start
-- appends one more, which is accepted, and the record of the phase is then refused.
pub second_recheck_refused :
    (plan : ApplyPlan) (records : List JournalRecord)
    → is_digest plan.index_digest_before ≡ true
    → latest_phase records ≡ some ApplyPhase.rolling_back
    → has_index_check plan (length records + 1) records ≡ true
    → (append_record plan records (index_recheck plan) ≡ some (rechecked plan records))
      × (append_record plan (rechecked plan records) (startup_rollback_verified plan) ≡ none)
second_recheck_refused plan records digest rolling one =
    (recheck_accepted plan records digest rolling, two_checks_refused plan records one)
