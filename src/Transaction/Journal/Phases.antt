-- ===== src/Transaction/Journal/Phases.antt =====
-- How the phases of a journal follow each other.
use ai_coding_agent_harness.Base.{
  ◌!=◌, Bool, true, false, some, List, [], ◌∷◌, ◌≡◌, refl, inl, inr, arith, Option-cases,
}
use ai_coding_agent_harness.Transaction.Models.{
  ApplyPhase-discrete, phase_comparable, ApplyPhase, ApplyPlan, JournalRecord,
}
use ai_coding_agent_harness.Transaction.Journal.{
  phase_predecessors, validate_from, phase_is_valid, may_follow, phase_after,
}

pub phase_after-some :
    (p : ApplyPhase) (rest : List JournalRecord)
    → (q : ApplyPhase) × (phase_after (some p) rest ≡ some q)
unfolding phase_after
phase_after-some p [] = (p, refl)
phase_after-some p (item ∷ rest) = elim (Option-cases item.phase) [
  | inl plain ↦ let (q, ends) = phase_after-some p rest in (q, ground arith)
  | inr (r, changes) ↦ let (q, ends) = phase_after-some r rest in (q, ground arith)
]

-- A set of phases that the table of predecessors never leaves keeps the phases of a journal.
pub phase_after-stays :
    (C : ApplyPhase → Bool)
    → ((a b : ApplyPhase) → C a ≡ true → phase_predecessors b a ≡ true → C b ≡ true)
    → (plan : ApplyPlan) (records : List JournalRecord) (is_first : Bool)
    → (rest : List JournalRecord) (p q : ApplyPhase)
    → validate_from plan records (some p) is_first rest ≡ true
    → C p ≡ true
    → phase_after (some p) rest ≡ some q
    → C q ≡ true
unfolding phase_after validate_from phase_is_valid may_follow
phase_after-stays C closed plan records is_first [] p q valid inside ends = ground arith
phase_after-stays C closed plan records is_first (item ∷ rest) p q valid inside ends =
    elim (Option-cases item.phase) [
      | inl plain ↦
          phase_after-stays C closed plan records false rest p q (ground arith) inside
            (ground arith)
      | inr (r, changes) ↦
          let inner : C r ≡ true = closed p r inside (ground arith) in
          phase_after-stays C closed plan records false rest r q (ground arith) inner (ground arith)
    ]

abbrev pub not_preparing : ApplyPhase → Bool
not_preparing p = p != ApplyPhase.preparing

pub not_preparing_closed :
    (a b : ApplyPhase)
    → not_preparing a ≡ true
    → phase_predecessors b a ≡ true
    → not_preparing b ≡ true
unfolding phase_predecessors ApplyPhase-discrete
not_preparing_closed a ApplyPhase.preparing inside follows = absurd (ground arith)
not_preparing_closed a ApplyPhase.backup_ready inside follows = refl
not_preparing_closed a ApplyPhase.applying inside follows = refl
not_preparing_closed a ApplyPhase.applied inside follows = refl
not_preparing_closed a ApplyPhase.rolling_back inside follows = refl
not_preparing_closed a ApplyPhase.rolled_back inside follows = refl
not_preparing_closed a ApplyPhase.recovery_required inside follows = refl

abbrev pub past_applying : ApplyPhase → Bool
past_applying ApplyPhase.preparing = false
past_applying ApplyPhase.backup_ready = false
past_applying ApplyPhase.applying = false
past_applying _ = true

pub past_applying_closed :
    (a b : ApplyPhase)
    → past_applying a ≡ true
    → phase_predecessors b a ≡ true
    → past_applying b ≡ true
unfolding phase_predecessors ApplyPhase-discrete
past_applying_closed ApplyPhase.preparing b inside follows = absurd (ground arith)
past_applying_closed ApplyPhase.backup_ready b inside follows = absurd (ground arith)
past_applying_closed ApplyPhase.applying b inside follows = absurd (ground arith)
past_applying_closed a ApplyPhase.preparing inside follows = absurd (ground arith)
past_applying_closed a ApplyPhase.backup_ready inside follows = follows
past_applying_closed a ApplyPhase.applying inside follows = follows
past_applying_closed a ApplyPhase.applied inside follows = refl
past_applying_closed a ApplyPhase.rolling_back inside follows = refl
past_applying_closed a ApplyPhase.rolled_back inside follows = refl
past_applying_closed a ApplyPhase.recovery_required inside follows = refl
