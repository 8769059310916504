-- ===== src/Transaction/Journal/Appending.antt =====
-- A journal that accepts a record is still valid as a whole.
use ai_coding_agent_harness.Base.{
  length-snoc, ◌+◌, ◌<◌, nat_comparable, inr, inl, Option-cases, all, Option, length, none, ◌∙◌, ℕ,
  Bool, true, false, not, ◌==◌, some, List, [], ◌∷◌, ◌++◌, ◌≡◌, refl, arith, any-snoc, all-same,
}
use ai_coding_agent_harness.Transaction.Models.{
  ApplyPhase, JournalStage, ApplyPlan, JournalRecord, ApplyPhase-discrete, stage_comparable,
  phase_comparable,
}
use ai_coding_agent_harness.Transaction.Journal.{
  may_append, sequence_is_valid, numbered, records_are_valid, phase_is_valid, orders_from,
  append_record, validate_from, phase_after, nonphase_is_valid, in_phase, has_evidence,
}
use ai_coding_agent_harness.Transaction.Journal.Evidence.{
  is_check, entry_is_backed_up, entry_is_applied, backup_evidence_is_valid,
  applied_evidence_is_valid,
}
use ai_coding_agent_harness.Transaction.Journal.Phases.{
  phase_after-some, phase_after-stays, not_preparing, not_preparing_closed, past_applying,
  past_applying_closed,
}
use ai_coding_agent_harness.Transaction.Journal.Frames.{
  backup_when_preparing, apply_when_applying, backed_up_snoc, applied_snoc,
}

past_applying_differs :
    (q : ApplyPhase) → past_applying q ≡ true → (q == ApplyPhase.applying) ≡ false
unfolding ApplyPhase-discrete
past_applying_differs ApplyPhase.applying past = absurd (ground arith)
past_applying_differs ApplyPhase.preparing past = refl
past_applying_differs ApplyPhase.backup_ready past = refl
past_applying_differs ApplyPhase.applied past = refl
past_applying_differs ApplyPhase.rolling_back past = refl
past_applying_differs ApplyPhase.rolled_back past = refl
past_applying_differs ApplyPhase.recovery_required past = refl

backup_evidence_snoc :
    (plan : ApplyPlan) (records : List JournalRecord) (item : JournalRecord) (bound : ℕ)
    → (item.stage == JournalStage.backup) ≡ false
    → backup_evidence_is_valid records plan bound ≡ true
    → backup_evidence_is_valid (records ++ (item ∷ [])) plan bound ≡ true
unfolding backup_evidence_is_valid
backup_evidence_snoc plan records item bound other evidence =
    all-same (entry_is_backed_up (records ++ (item ∷ [])) bound) (entry_is_backed_up records bound)
      plan.entries (λ e. backed_up_snoc records item bound e other)
    ∙ evidence

applied_evidence_snoc :
    (plan : ApplyPlan) (records : List JournalRecord) (item : JournalRecord) (bound : ℕ)
    → (item.stage == JournalStage.apply) ≡ false
    → applied_evidence_is_valid records plan bound ≡ true
    → applied_evidence_is_valid (records ++ (item ∷ [])) plan bound ≡ true
unfolding applied_evidence_is_valid
applied_evidence_snoc plan records item bound other evidence =
    let entries =
      all-same (entry_is_applied (records ++ (item ∷ [])) bound) (entry_is_applied records bound)
        plan.entries (λ e. applied_snoc records item bound e other) in
    let changes =
      any-snoc (is_check "change set digest rechecked" plan.changeset_digest bound) records item
        (ground arith) in
    let index =
      any-snoc (is_check "index digest rechecked" plan.index_digest_before bound) records item
        (ground arith) in
    simp (entries, changes, index) (ground arith)

-- No change to a phase in the list.
unfoldable pub never_enters : ApplyPhase → JournalRecord → Bool
never_enters phase item = not (in_phase item.phase phase)

-- The evidence of a phase stands when a later record that is no change of phase is added.
evidence_snoc :
    (plan : ApplyPlan) (records rest : List JournalRecord) (item : JournalRecord) (bound : ℕ)
    → (phase : ApplyPhase) → (phase == ApplyPhase.rolled_back) ≡ false
    → validate_from plan records (some phase) false rest ≡ true
    → nonphase_is_valid item (phase_after (some phase) rest) plan ≡ true
    → has_evidence plan records bound phase ≡ true
    → has_evidence plan (records ++ (item ∷ [])) bound phase ≡ true
unfolding has_evidence ApplyPhase-discrete
evidence_snoc plan records rest item bound ApplyPhase.preparing kept valid accepted evidence = refl
evidence_snoc plan records rest item bound ApplyPhase.applying kept valid accepted evidence = refl
evidence_snoc plan records rest item bound ApplyPhase.rolling_back kept valid accepted evidence =
    refl
evidence_snoc plan records rest item bound ApplyPhase.recovery_required kept valid accepted
      evidence =
    refl
evidence_snoc plan records rest item bound ApplyPhase.rolled_back kept valid accepted evidence =
    absurd (ground arith)
evidence_snoc plan records rest item bound ApplyPhase.backup_ready kept valid accepted evidence =
    let (q, ends) = phase_after-some ApplyPhase.backup_ready rest in
    let inside =
      phase_after-stays not_preparing not_preparing_closed plan records false rest
        ApplyPhase.backup_ready q valid refl ends in
    backup_evidence_snoc plan records item bound
      (backup_when_preparing plan item q (rw (← ends) accepted) inside) evidence
evidence_snoc plan records rest item bound ApplyPhase.applied kept valid accepted evidence =
    let (q, ends) = phase_after-some ApplyPhase.applied rest in
    let past =
      phase_after-stays past_applying past_applying_closed plan records false rest
        ApplyPhase.applied q valid refl ends in
    applied_evidence_snoc plan records item bound
      (apply_when_applying plan item q (rw (← ends) accepted) (past_applying_differs q past))
      evidence

phase_snoc :
    (plan : ApplyPlan) (records : List JournalRecord) (item : JournalRecord)
    → (current : Option ApplyPhase) (is_first : Bool) (r : JournalRecord) (phase : ApplyPhase)
    → phase_is_valid plan records current is_first r phase ≡ true
    → has_evidence plan (records ++ (item ∷ [])) r.order phase ≡ true
    → phase_is_valid plan (records ++ (item ∷ [])) current is_first r phase ≡ true
unfolding phase_is_valid
phase_snoc plan records item current is_first r phase valid evidence = ground arith

has_evidence_of :
    (plan : ApplyPlan) (records : List JournalRecord)
    → (current : Option ApplyPhase) (is_first : Bool) (r : JournalRecord) (phase : ApplyPhase)
    → phase_is_valid plan records current is_first r phase ≡ true
    → has_evidence plan records r.order phase ≡ true
unfolding phase_is_valid
has_evidence_of plan records current is_first r phase valid = ground arith

validate_snoc :
    (plan : ApplyPlan) (records : List JournalRecord) (item : JournalRecord)
    → item.phase ≡ none
    → (current : Option ApplyPhase) (is_first : Bool) (rest : List JournalRecord)
    → validate_from plan records current is_first rest ≡ true
    → nonphase_is_valid item (phase_after current rest) plan ≡ true
    → all (never_enters ApplyPhase.rolled_back) rest ≡ true
    → validate_from plan (records ++ (item ∷ [])) current is_first (rest ++ (item ∷ [])) ≡ true
unfolding validate_from phase_after never_enters
validate_snoc plan records item plain current is_first [] valid accepted kept = ground arith
validate_snoc plan records item plain current is_first (r ∷ rest) valid accepted kept =
    elim (Option-cases r.phase) [
      | inl same ↦
          let more =
            validate_snoc plan records item plain current false rest (ground arith) (ground arith)
              (ground arith) in
          ground arith
      | inr (phase, changes) ↦
          let more =
            validate_snoc plan records item plain (some phase) false rest (ground arith)
              (ground arith) (ground arith) in
          let before : phase_is_valid plan records current is_first r phase ≡ true = ground arith in
          let evidence =
            evidence_snoc plan records rest item r.order phase (ground arith) (ground arith)
              (ground arith) (has_evidence_of plan records current is_first r phase before) in
          let here = phase_snoc plan records item current is_first r phase before evidence in
          ground arith
    ]

orders_snoc :
    (n : ℕ) (records : List JournalRecord) (item : JournalRecord)
    → orders_from n records ≡ true
    → item.order ≡ n + length records
    → orders_from n (records ++ (item ∷ [])) ≡ true
unfolding orders_from
orders_snoc n [] item ordered same = ground arith
orders_snoc n (r ∷ rest) item ordered same =
    let more = orders_snoc (n + 1) rest item (ground arith) (omega arith) in ground arith

-- The check of a record that is appended is the check of the whole journal: on a journal that
-- reads as valid, that has room for a record and that has never been rolled back, what
-- `append_record` accepts leaves a journal that reads as valid.
pub append_record-valid :
    (plan : ApplyPlan) (records after : List JournalRecord) (given : JournalRecord)
    → records_are_valid plan records ≡ true
    → all (never_enters ApplyPhase.rolled_back) records ≡ true
    → length records < 100000
    → append_record plan records given ≡ some after
    → records_are_valid plan after ≡ true
unfolding append_record records_are_valid may_append sequence_is_valid numbered
append_record-valid plan records after given valid kept room appended =
    let new = numbered records given in
    let grows : after ≡ records ++ (new ∷ []) = ground arith in
    let ordered = orders_snoc 1 records new (ground arith) (omega arith) in
    let size = length-snoc records new in
    let sequence : sequence_is_valid plan (records ++ (new ∷ [])) ≡ true =
      elim (Option-cases given.phase) [
        | inl plain ↦
            validate_snoc plan records new plain none true records (ground arith) (ground arith)
              kept
        | inr (phase, changes) ↦ ground arith
      ] in
    rw grows (ground arith)
