-- ===== src/Transaction/Journal/WriteAhead.antt =====
-- The journal is written ahead: no effect is recorded before every entry is backed up.
use mathlib.Core.List.{Memᴰ}
use ai_coding_agent_harness.Base.{
  ℕ, ◌+◌, ◌≤◌, Bool, true, false, ◌||◌, Option, none, some, List, [], ◌∷◌, ◌≡◌, inl, inr, arith,
  Option-cases, All, all-All, nat_comparable,
}
use ai_coding_agent_harness.Transaction.Models.{
  ApplyPhase, JournalStage, ApplyPlan, JournalRecord, ApplyPhase-discrete, phase_comparable,
}
use ai_coding_agent_harness.Transaction.Journal.{
  in_phase, validate_from, phase_is_valid, may_follow, phase_predecessors, nonphase_is_valid,
  has_evidence, orders_from, sequence_is_valid, records_are_valid,
}
use ai_coding_agent_harness.Transaction.Journal.Evidence.{
  entry_is_backed_up, backup_evidence_is_valid,
}
use ai_coding_agent_harness.Transaction.Journal.Evidenced.{Happened-later}
use ai_coding_agent_harness.Transaction.Journal.Guarantees.{BackedUp, entry_is_backed_up-BackedUp}

AllBackedUp : ApplyPlan → List JournalRecord → ℕ → Type 0
AllBackedUp plan records n = (m : ℕ) × (backup_evidence_is_valid records plan m ≡ true) × (m ≤ n)

needs_backup : Option ApplyPhase → Bool
needs_backup current =
    in_phase current ApplyPhase.backup_ready || in_phase current ApplyPhase.applying

-- The phases in which effects are near are entered with the backups in place.
enter_backed_up :
    (plan : ApplyPlan) (records : List JournalRecord) (current : Option ApplyPhase)
    (is_first : Bool)
    → (r : JournalRecord) (p : ApplyPhase) → phase_is_valid plan records current is_first r p ≡ true
    → (needs_backup current ≡ true → AllBackedUp plan records r.order)
    → needs_backup (some p) ≡ true
    → AllBackedUp plan records r.order
unfolding needs_backup AllBackedUp phase_is_valid may_follow phase_predecessors has_evidence
    ApplyPhase-discrete
enter_backed_up plan records current is_first r ApplyPhase.backup_ready valid before needs =
    (r.order, ground arith, omega arith)
enter_backed_up plan records (some q) is_first r ApplyPhase.applying valid before needs =
    before (ground arith)
enter_backed_up plan records none is_first r ApplyPhase.applying valid before needs =
    absurd (ground arith)
enter_backed_up plan records current is_first r p valid before needs = absurd (ground arith)

AllBackedUp-later :
    (plan : ApplyPlan) (records : List JournalRecord) (n : ℕ)
    → AllBackedUp plan records n
    → AllBackedUp plan records (n + 1)
unfolding AllBackedUp
AllBackedUp-later plan records n (m, evidence, early) = (m, evidence, omega arith)

apply_needs_backup :
    (plan : ApplyPlan) (item : JournalRecord) (current : Option ApplyPhase)
    → nonphase_is_valid item current plan ≡ true
    → item.stage ≡ JournalStage.apply
    → needs_backup current ≡ true
unfolding nonphase_is_valid needs_backup
apply_needs_backup plan item current valid at = ground arith

backed_up_at :
    (plan : ApplyPlan) (records : List JournalRecord) (current : Option ApplyPhase)
    (is_first : Bool)
    → (n : ℕ) (rest : List JournalRecord) (item : JournalRecord)
    → validate_from plan records current is_first rest ≡ true
    → orders_from n rest ≡ true
    → (needs_backup current ≡ true → AllBackedUp plan records n)
    → Memᴰ item rest
    → item.phase ≡ none
    → item.stage ≡ JournalStage.apply
    → AllBackedUp plan records item.order
unfolding validate_from orders_from
backed_up_at plan records current is_first n [] item valid ordered before member plain at =
    absurd (elim member [ ])
backed_up_at plan records current is_first n (r ∷ rest) item valid ordered before member plain at =
    let same : r.order ≡ n = ground arith in
    elim (Option-cases r.phase) [
      | inl no_phase ↦ elim member [
        | Memᴰ.tail later ↦
            backed_up_at plan records current false (n + 1) rest item (ground arith) (ground arith)
              (λ needs. AllBackedUp-later plan records n (before needs)) later plain at
        | Memᴰ.head here ↦
            rw (here)
              (rw same (before (apply_needs_backup plan r current (ground arith) (rw (← here) at))))
      ]
      | inr (p, changes) ↦ elim member [
        | Memᴰ.tail later ↦
            backed_up_at plan records (some p) false (n + 1) rest item (ground arith) (ground arith)
              (λ needs. AllBackedUp-later plan records n (
                rw (← same) (
                  enter_backed_up plan records current is_first r p (ground arith)
                    (λ needed. rw same (before needed)) needs)))
              later plain at
        | Memᴰ.head here ↦ absurd (ground arith)
      ]
    ]

-- In a valid journal, before any record of the effects of the plan every entry of the plan has a
-- pending and a later verified backup record, both before that record.
pub effect-BackedUp :
    (plan : ApplyPlan) (records : List JournalRecord) (item : JournalRecord)
    → records_are_valid plan records ≡ true
    → Memᴰ item records
    → item.phase ≡ none
    → item.stage ≡ JournalStage.apply
    → All (BackedUp records item.order) plan.entries
unfolding records_are_valid sequence_is_valid backup_evidence_is_valid AllBackedUp needs_backup
effect-BackedUp plan records item valid member plain at =
    let (m, evidence, early) =
      backed_up_at plan records none true 1 records item (ground arith) (ground arith)
        (λ needs. absurd (ground arith)) member plain at in
    all-All (entry_is_backed_up records m)
      (λ e proven.
        Happened-later records JournalStage.backup "backup pending" "backup verified"
          e.path.identity e.backup_digest m item.order early
          (entry_is_backed_up-BackedUp records m e proven))
      plan.entries evidence
