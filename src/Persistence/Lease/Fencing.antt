-- ===== src/Persistence/Lease/Fencing.antt =====
-- A lease that was given up or that expired is never held again.
use ai_coding_agent_harness.Base.{
  ℕ, String, Bool, true, false, not, ◌&&◌, List, [], ◌∷◌, ◌≡◌, refl, arith, inl, inr, any, all,
  ◌==◌, ap, Bool-cases, text_comparable, same_iff,
}
use ai_coding_agent_harness.Persistence.LeaseModels.{
  lease_status_comparable, LeaseStatus, LeaseStatus-discrete, ExecutionLease, Database, Result,
}
use ai_coding_agent_harness.Persistence.Lease.Answers.{answer-Step}
use ai_coding_agent_harness.Persistence.Lease.{
  has_id, moved_to, progressed, row_is, owned_row_is, Call, answer, run_calls,
}
use ai_coding_agent_harness.Persistence.Lease.Steps.{
  Update, beat, expire, give_up, hand_over, row_of, change_of, rewritten, Inserts, Updates, inserts,
  updates, replaces,
}
use ai_coding_agent_harness.Persistence.Lease.Exclusive.{
  rewritten-ids, rewrite-lease_id, fresh_id, run_done, run_refused, Result-cases,
}

abbrev pub is_active : ExecutionLease → Bool
is_active l = l.status == LeaseStatus.active

-- The identity has a row, and no active one.
unfoldable pub is_fenced : String → List ExecutionLease → Bool
is_fenced lease_id rows =
    any (has_id lease_id) rows && all (λ l. not (has_id lease_id l && is_active l)) rows

-- No update makes a row active.
change-active :
    (u : Update) (l : ExecutionLease)
    → row_of u l ≡ true
    → is_active (change_of u l) ≡ true
    → is_active l ≡ true
unfolding progressed moved_to row_is owned_row_is LeaseStatus-discrete
change-active (beat owner lease_id revision phase now) l found now_active = ground arith
change-active (expire lease_id revision) l found now_active = absurd (ground arith)
change-active (give_up owner lease_id revision) l found now_active = absurd (ground arith)
change-active (hand_over lease_id revision) l found now_active = absurd (ground arith)

module _ (lease_id : String) where
  unfoldable pub has_no_active : List ExecutionLease → Bool
  has_no_active rows = all (λ l. not (has_id lease_id l && is_active l)) rows

  rewritten-has :
      (u : Update) (rows : List ExecutionLease)
      → any (has_id lease_id) (rewritten u rows) ≡ any (has_id lease_id) rows
  rewritten-has u rows =
      let before = fresh_id lease_id rows in
      let after = fresh_id lease_id (rewritten u rows) in
      let ids = ap (λ names. any (λ y. y == lease_id) names) (rewritten-ids u rows) in
      cc (before, after, ids)

  rewritten-no_active :
      (u : Update) (rows : List ExecutionLease)
      → has_no_active rows ≡ true
      → has_no_active (rewritten u rows) ≡ true
  unfolding has_no_active
  rewritten-no_active u [] none_here = refl
  rewritten-no_active u (l ∷ rows) none_here =
      let rest = rewritten-no_active u rows (ground arith) in
      let keeps = rewrite-lease_id u l in
      elim (Bool-cases (row_of u l)) [
        | inr other ↦ ground arith
        | inl found ↦ elim (Bool-cases (is_active (change_of u l))) [
          | inl now_active ↦ let before = change-active u l found now_active in ground arith
          | inr quiet ↦ ground arith
        ]
      ]

  Updates-fenced :
      (u : Update) (db : Database) (l : ExecutionLease) (after : List ExecutionLease)
      → Updates u db l after
      → is_fenced lease_id db.leases ≡ true
      → is_fenced lease_id after ≡ true
  unfolding is_fenced has_no_active
  Updates-fenced u db l after step fenced =
      let quiet = rewritten-no_active u db.leases (ground arith) in
      let same = step.updated in rw same (simp (rewritten-has u db.leases, quiet) (ground arith))

  Inserts-fenced :
      (rows : List ExecutionLease) (l : ExecutionLease) (after : List ExecutionLease)
      → Inserts rows l after
      → is_fenced lease_id rows ≡ true
      → is_fenced lease_id after ≡ true
  unfolding is_fenced
  Inserts-fenced rows l after step fenced =
      let same = step.inserted in
      let fresh = step.fresh in
      rw same (elim (Bool-cases (has_id lease_id l)) [
        | inr other ↦ ground arith
        | inl named ↦
            let equal : l.lease_id ≡ lease_id = (same_iff l.lease_id lease_id).0 named in
            let absent : any (has_id lease_id) rows ≡ false = rw (← equal) fresh in
            absurd (ground arith)
      ])

  answer-fenced :
      (timeout : ℕ) (db d : Database) (c : Call) (l : ExecutionLease)
      → answer timeout db c ≡ Result.done l d
      → is_fenced lease_id db.leases ≡ true
      → is_fenced lease_id d.leases ≡ true
  answer-fenced timeout db d c l same fenced = elim (answer-Step timeout db d c l same) [
    | inserts step ↦ Inserts-fenced db.leases l d.leases step fenced
    | updates u step ↦ Updates-fenced u db l d.leases step fenced
    | replaces old_id revision old between first second ↦
        Inserts-fenced between l d.leases second
          (Updates-fenced (hand_over old_id revision) db old between first fenced)
  ]

  pub run_calls-fenced :
      (timeout : ℕ) (db : Database) (calls : List Call)
      → is_fenced lease_id db.leases ≡ true
      → is_fenced lease_id (run_calls timeout db calls).leases ≡ true
  unfolding run_calls
  run_calls-fenced timeout db [] fenced = fenced
  run_calls-fenced timeout db (c ∷ calls) fenced = elim (Result-cases (answer timeout db c)) [
    | inl (l, d, same) ↦
        rw (run_done timeout db c calls l d same)
          (run_calls-fenced timeout d calls (answer-fenced timeout db d c l same fenced))
    | inr (e, refused) ↦
        rw (run_refused timeout db c calls e refused) (run_calls-fenced timeout db calls fenced)
  ]
