-- ===== src/Transaction/Journal/Evidenced.antt =====
-- What a valid journal proves to its reader: effects that have a pending record and a later
-- completed one.
use mathlib.Core.List.{Memᴰ}
use ai_coding_agent_harness.Base.{
  ◌≤◌, ℕ, ◌<◌, String, Bool, true, Option, List, [], ◌∷◌, ◌≡◌, refl, inl, inr, arith, Bool-cases,
  select,
}
use ai_coding_agent_harness.Transaction.Models.{JournalStage, JournalRecord}
use ai_coding_agent_harness.Transaction.Journal.Evidence.{is_started, is_completed, single_ordered}

-- Among the records: a pending record of the effect and a later completed one, before a bound.
pub record Happened (records : List JournalRecord) (stage : JournalStage)
    (pending_detail completed_detail : String) (path_identity : String) (digest : Option String)
    (bound : ℕ) : Type 0 where
  pub started : JournalRecord
  pub finished : JournalRecord
  pub started_recorded : Memᴰ started records
  pub finished_recorded : Memᴰ finished records
  pub starts : is_started stage pending_detail path_identity started ≡ true
  pub finishes : is_completed stage completed_detail path_identity digest finished ≡ true
  pub in_order : started.order < finished.order
  pub in_time : finished.order < bound

-- The first selected record is one of the records, and passes the test.
select_first :
    (p : JournalRecord → Bool) (xs : List JournalRecord) {x : JournalRecord}
    {more : List JournalRecord}
    → select p xs ≡ x ∷ more
    → Memᴰ x xs × (p x ≡ true)
unfolding select
select_first p [] chosen = absurd (ground arith)
select_first p (y ∷ ys) {more = more} chosen = elim (Bool-cases (p y)) [
  | inl here ↦ (Memᴰ.head (ground arith), ground arith)
  | inr there ↦
      let (later, passes) = select_first p ys {more = more} (ground arith) in
      (Memᴰ.tail later, passes)
]

single_ordered-cases :
    (xs ys : List JournalRecord) (bound : ℕ)
    → single_ordered xs ys bound ≡ true
    → (s : JournalRecord) × (f : JournalRecord) × (xs ≡ s ∷ [])
      × (ys ≡ f ∷ [])
      × (s.order < f.order)
      × (f.order < bound)
unfolding single_ordered
single_ordered-cases (s ∷ []) (f ∷ []) bound ordered =
    (s, f, refl, refl, ground arith, ground arith)
single_ordered-cases [] ys bound ordered = absurd (ground arith)
single_ordered-cases (s ∷ []) [] bound ordered = absurd (ground arith)
single_ordered-cases (s ∷ []) (f ∷ g ∷ more) bound ordered = absurd (ground arith)
single_ordered-cases (s ∷ t ∷ more) ys bound ordered = absurd (ground arith)

pub ordered-Happened :
    (records : List JournalRecord) (stage : JournalStage) (pending_detail completed_detail : String)
    → (identity : String) (digest : Option String) (bound : ℕ)
    → single_ordered
        (select (is_started stage pending_detail identity) records)
        (select (is_completed stage completed_detail identity digest) records)
        bound
      ≡ true
    → Happened records stage pending_detail completed_detail identity digest bound
ordered-Happened records stage pending_detail completed_detail identity digest bound ordered =
    let (s, f, one_start, one_finish, in_order, in_time) =
      single_ordered-cases (select (is_started stage pending_detail identity) records)
        (select (is_completed stage completed_detail identity digest) records) bound ordered in
    let (start_member, starts) =
      select_first (is_started stage pending_detail identity) records one_start in
    let (finish_member, finishes) =
      select_first (is_completed stage completed_detail identity digest) records one_finish in
    record {
      started = s;
      finished = f;
      started_recorded = start_member;
      finished_recorded = finish_member;
      starts = starts;
      finishes = finishes;
      in_order = in_order;
      in_time = in_time;
    }

pub Happened-later :
    (records : List JournalRecord) (stage : JournalStage) (pending_detail completed_detail : String)
    → (identity : String) (digest : Option String) (bound later : ℕ) → bound ≤ later
    → Happened records stage pending_detail completed_detail identity digest bound
    → Happened records stage pending_detail completed_detail identity digest later
Happened-later records stage pending_detail completed_detail identity digest bound later wider h =
    record {
      started = h.started;
      finished = h.finished;
      started_recorded = h.started_recorded;
      finished_recorded = h.finished_recorded;
      starts = h.starts;
      finishes = h.finishes;
      in_order = h.in_order;
      in_time = let before = h.in_time in omega arith;
    }
