-- ===== src/Persistence/Lease/Lost.antt =====
-- The owner of a lease that expired or was given up, and the calls that it still makes.
use mathlib.Core.List.{Memᴰ}
use ai_coding_agent_harness.Base.{
  ℕ, String, Bool, true, false, ◌&&◌, some, List, [], ◌∷◌, map, ◌≡◌, refl, arith, inl, inr,
  find_first, select, any, ◌==◌, Bool-cases, text_comparable, same_iff,
}
use ai_coding_agent_harness.Domain.Enums.{TaskState}
use ai_coding_agent_harness.Domain.AcceptanceModels.{are_unique}
use ai_coding_agent_harness.Persistence.LeaseModels.{
  LeaseStatus, lease_status_comparable, ReleaseEvidence, ExecutionLease, Database, Query, Result,
}
use ai_coding_agent_harness.Persistence.Lease.Answers.{Query-cases}
use ai_coding_agent_harness.Persistence.Lease.{
  is_open, has_id, open_lease, is_held, heartbeat, release, Call, answer, run_calls,
}
use ai_coding_agent_harness.Persistence.Lease.Exclusive.{rows_are_valid, fresh_id, answer-valid}
use ai_coding_agent_harness.Persistence.Lease.Readback.{selected_row, one_row-some, answer-found}
use ai_coding_agent_harness.Persistence.Lease.Fencing.{
  is_active, is_fenced, has_no_active, run_calls-fenced,
}

unfoldable pub is_raised : Result → Bool
is_raised (Result.done l d) = false
is_raised (Result.raised e) = true

no_row_no_active :
    (lease_id : String) (rows : List ExecutionLease)
    → any (has_id lease_id) rows ≡ false
    → has_no_active lease_id rows ≡ true
unfolding has_no_active
no_row_no_active lease_id [] absent = refl
no_row_no_active lease_id (l ∷ rows) absent =
    let rest = no_row_no_active lease_id rows (ground arith) in ground arith

found_fenced :
    (lease_id : String) (l : ExecutionLease) (rows : List ExecutionLease)
    → find_first (has_id lease_id) rows ≡ some l
    → are_unique (map (λ r. r.lease_id) rows) ≡ true
    → is_active l ≡ false
    → is_fenced lease_id rows ≡ true
unfolding is_fenced find_first are_unique has_no_active
found_fenced lease_id l [] found unique quiet = absurd (ground arith)
found_fenced lease_id l (m ∷ rows) found unique quiet = elim (Bool-cases (has_id lease_id m)) [
  | inr other ↦
      let rest = found_fenced lease_id l rows (ground arith) (ground arith) quiet in ground arith
  | inl named ↦
      let equal : m.lease_id ≡ lease_id = (same_iff m.lease_id lease_id).0 named in
      let fresh : any (has_id m.lease_id) rows ≡ false =
        let names = fresh_id m.lease_id rows in ground arith in
      let rest = no_row_no_active lease_id rows (rw (← equal) fresh) in ground arith
]

member_quiet :
    (lease_id : String) (l : ExecutionLease) (rows : List ExecutionLease)
    → Memᴰ l rows
    → has_no_active lease_id rows ≡ true
    → (has_id lease_id l && is_active l) ≡ false
unfolding has_no_active
member_quiet lease_id l [] member quiet = absurd (elim member [ ])
member_quiet lease_id l (m ∷ rows) member quiet = elim member [
  | Memᴰ.head here ↦ ground arith
  | Memᴰ.tail later ↦ member_quiet lease_id l rows later (ground arith)
]

module _ (db : Database) (lease_id : String) (fenced : is_fenced lease_id db.leases ≡ true) where
  current_quiet :
      (l : ExecutionLease)
      → open_lease db ≡ Query.read (some l)
      → (has_id lease_id l && is_active l) ≡ false
  unfolding open_lease is_fenced has_no_active
  current_quiet l opens =
      member_quiet lease_id l db.leases
        (selected_row db.leases l [] (one_row-some (select is_open db.leases) l opens))
        (ground arith)

  heartbeat_raises :
      (owner : String) (revision : ℕ) (phase : TaskState) (now : ℕ)
      → is_raised (heartbeat db lease_id owner revision phase now) ≡ true
  unfolding is_raised heartbeat is_held
  heartbeat_raises owner revision phase now = elim (Query-cases (open_lease db)) [
    | inl (inl (e, bad)) ↦ ground arith
    | inl (inr none_open) ↦ ground arith
    | inr (current, opens) ↦ let quiet = current_quiet current opens in ground arith
  ]

  release_raises :
      (owner : String) (revision : ℕ) (evidence : ReleaseEvidence) (now : ℕ)
      → is_raised (release db lease_id owner revision evidence now) ≡ true
  unfolding is_raised release is_held
  release_raises owner revision evidence now = elim (Query-cases (open_lease db)) [
    | inl (inl (e, bad)) ↦ ground arith
    | inl (inr none_open) ↦ ground arith
    | inr (current, opens) ↦ let quiet = current_quiet current opens in ground arith
  ]

-- Once a call has returned a lease that is not active (it expired, or it was given up), no
-- heartbeat and no release under its identity succeeds, whatever calls come between, and
-- whatever owner, revision, phase, evidence and time are given.
pub lost_lease_raises :
    (timeout : ℕ) (db d : Database) (c : Call) (l : ExecutionLease)
    → rows_are_valid db.leases ≡ true
    → answer timeout db c ≡ Result.done l d
    → (l.status == LeaseStatus.active) ≡ false
    → (calls : List Call) (owner : String) (revision : ℕ) (phase : TaskState)
    → (evidence : ReleaseEvidence) (now : ℕ)
    → (is_raised (heartbeat (run_calls timeout d calls) l.lease_id owner revision phase now) ≡ true)
      × (is_raised (release (run_calls timeout d calls) l.lease_id owner revision evidence now)
          ≡ true)
unfolding rows_are_valid
lost_lease_raises timeout db d c l valid same lost calls owner revision phase evidence now =
    let after = answer-valid timeout db d c l same valid in
    let fenced =
      found_fenced l.lease_id l d.leases (answer-found timeout db d c l same valid) (ground arith)
        lost in
    let still = run_calls-fenced l.lease_id timeout d calls fenced in
    (
      heartbeat_raises (run_calls timeout d calls) l.lease_id still owner revision phase now,
      release_raises (run_calls timeout d calls) l.lease_id still owner revision evidence now,
    )
