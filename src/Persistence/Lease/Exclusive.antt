-- ===== src/Persistence/Lease/Exclusive.antt =====
-- The slot of execution has one open lease at most, whatever the calls and their order.
use ai_coding_agent_harness.Base.{
  ◌⊎◌, ℕ, ◌≤◌, String, Bool, true, false, ◌&&◌, List, [], ◌∷◌, map, ◌≡◌, refl, arith, inl, inr,
  select, any, all, length, leb, ◌==◌, ap, Bool-cases, text_comparable,
}
use ai_coding_agent_harness.Domain.AcceptanceModels.{are_unique}
use ai_coding_agent_harness.Persistence.LeaseModels.{ExecutionLease, Database, Result}
use ai_coding_agent_harness.Persistence.Lease.Answers.{answer-Step}
use ai_coding_agent_harness.Persistence.Lease.{
  LeaseError, lease_is_valid, is_open, has_id, row_checks, rewrite_row, moved_to, progressed,
  row_is, owned_row_is, Call, answer, database_after, run_calls,
}
use ai_coding_agent_harness.Persistence.Lease.Steps.{
  Update, beat, expire, give_up, hand_over, row_of, change_of, rewritten, Inserts, Updates, inserts,
  updates, replaces,
}

-- The identities are unique, every row can be read, and one row at most is open.
unfoldable pub rows_are_valid : List ExecutionLease → Bool
rows_are_valid rows =
    are_unique (map (λ l. l.lease_id) rows)
    && (all lease_is_valid rows && leb (length (select is_open rows)) 1)

pub change-lease_id : (u : Update) (l : ExecutionLease) → (change_of u l).lease_id ≡ l.lease_id
unfolding progressed moved_to
change-lease_id (beat owner lease_id revision phase now) l = refl
change-lease_id (expire lease_id revision) l = refl
change-lease_id (give_up owner lease_id revision) l = refl
change-lease_id (hand_over lease_id revision) l = refl

change-valid :
    (u : Update) (l : ExecutionLease)
    → lease_is_valid l ≡ true
    → row_checks (change_of u l) ≡ true
    → lease_is_valid (change_of u l) ≡ true
unfolding progressed moved_to lease_is_valid row_checks
change-valid (beat owner lease_id revision phase now) l valid checks = ground arith
change-valid (expire lease_id revision) l valid checks = ground arith
change-valid (give_up owner lease_id revision) l valid checks = ground arith
change-valid (hand_over lease_id revision) l valid checks = ground arith

-- An update finds open rows only.
row_of-open : (u : Update) (l : ExecutionLease) → row_of u l ≡ true → is_open l ≡ true
unfolding row_is owned_row_is is_open
row_of-open (beat owner lease_id revision phase now) l found = ground arith
row_of-open (expire lease_id revision) l found = ground arith
row_of-open (give_up owner lease_id revision) l found = ground arith
row_of-open (hand_over lease_id revision) l found = ground arith

module _ (u : Update) where
  pub rewrite-lease_id :
      (l : ExecutionLease) → (rewrite_row (row_of u) (change_of u) l).lease_id ≡ l.lease_id
  rewrite-lease_id l = elim (Bool-cases (row_of u l)) [
    | inl here ↦ let same = change-lease_id u l in ground arith
    | inr there ↦ ground arith
  ]

  pub rewritten-ids :
      (rows : List ExecutionLease)
      → map (λ l. l.lease_id) (rewritten u rows) ≡ map (λ l. l.lease_id) rows
  rewritten-ids [] = refl
  rewritten-ids (l ∷ rows) =
      let here = rewrite-lease_id l in let rest = rewritten-ids rows in cc (here, rest)

  rewritten-valid :
      (rows : List ExecutionLease)
      → all lease_is_valid rows ≡ true
      → all row_checks (rewritten u rows) ≡ true
      → all lease_is_valid (rewritten u rows) ≡ true
  rewritten-valid [] valid checks = refl
  rewritten-valid (l ∷ rows) valid checks =
      let rest = rewritten-valid rows (ground arith) (ground arith) in
      elim (Bool-cases (row_of u l)) [
        | inl here ↦ let first = change-valid u l (ground arith) (ground arith) in ground arith
        | inr there ↦ ground arith
      ]

  -- An update opens no row.
  rewritten-open :
      (rows : List ExecutionLease)
      → length (select is_open (rewritten u rows)) ≤ length (select is_open rows)
  unfolding select
  rewritten-open [] = omega arith
  rewritten-open (l ∷ rows) =
      let rest = rewritten-open rows in
      elim (Bool-cases (row_of u l)) [
        | inl here ↦ let before = row_of-open u l here in ground arith
        | inr there ↦ ground arith
      ]

-- A row is named by its identity.
pub fresh_id :
    (lease_id : String) (rows : List ExecutionLease)
    → any (has_id lease_id) rows ≡ any (λ y. y == lease_id) (map (λ l. l.lease_id) rows)
fresh_id lease_id [] = refl
fresh_id lease_id (l ∷ rows) = let rest = fresh_id lease_id rows in cc rest

none_open : (rows : List ExecutionLease) → any is_open rows ≡ false → select is_open rows ≡ []
unfolding select
none_open [] closed = refl
none_open (l ∷ rows) closed = let rest = none_open rows (ground arith) in ground arith

Updates-valid :
    (u : Update) (db : Database) (l : ExecutionLease) (after : List ExecutionLease)
    → Updates u db l after
    → rows_are_valid db.leases ≡ true
    → rows_are_valid after ≡ true
unfolding rows_are_valid
Updates-valid u db l after step valid =
    let ids = rewritten-ids u db.leases in
    let readable = rewritten-valid u db.leases (ground arith) step.checked in
    let few = rewritten-open u db.leases in
    let same = step.updated in rw same (simp (ids, readable) (ground arith))

Inserts-valid :
    (rows : List ExecutionLease) (l : ExecutionLease) (after : List ExecutionLease)
    → Inserts rows l after
    → rows_are_valid rows ≡ true
    → rows_are_valid after ≡ true
unfolding rows_are_valid are_unique select
Inserts-valid rows l after step valid =
    let same = step.inserted in
    let readable = step.valid in
    let fresh : any (λ y. y == l.lease_id) (map (λ r. r.lease_id) rows) ≡ false =
      rw (← fresh_id l.lease_id rows) step.fresh in
    let closed = none_open rows step.slot_free in
    rw same (elim (Bool-cases (is_open l)) [ inl here ↦ ground arith | inr there ↦ ground arith ])

pub answer-valid :
    (timeout : ℕ) (db d : Database) (c : Call) (l : ExecutionLease)
    → answer timeout db c ≡ Result.done l d
    → rows_are_valid db.leases ≡ true
    → rows_are_valid d.leases ≡ true
answer-valid timeout db d c l same valid = elim (answer-Step timeout db d c l same) [
  | inserts step ↦ Inserts-valid db.leases l d.leases step valid
  | updates u step ↦ Updates-valid u db l d.leases step valid
  | replaces lease_id revision old between first second ↦
      Inserts-valid between l d.leases second
        (Updates-valid (hand_over lease_id revision) db old between first valid)
]

pub Result-cases :
    (r : Result)
    → ((l : ExecutionLease) × (d : Database) × (r ≡ Result.done l d))
      ⊎ ((e : LeaseError) × (r ≡ Result.raised e))
Result-cases (Result.done l d) = inl (l, d, refl)
Result-cases (Result.raised e) = inr (e, refl)

module _ (timeout : ℕ) (db : Database) (c : Call) (calls : List Call) where
  pub run_done :
      (l : ExecutionLease) (d : Database)
      → answer timeout db c ≡ Result.done l d
      → run_calls timeout db (c ∷ calls) ≡ run_calls timeout d calls
  unfolding run_calls database_after
  run_done l d same = ap (λ r. run_calls timeout (database_after db r) calls) same

  pub run_refused :
      (e : LeaseError)
      → answer timeout db c ≡ Result.raised e
      → run_calls timeout db (c ∷ calls) ≡ run_calls timeout db calls
  unfolding run_calls database_after
  run_refused e same = ap (λ r. run_calls timeout (database_after db r) calls) same

-- Whatever calls are made, in whatever order and with whatever arguments, the rows stay valid: the
-- identities are unique, every row can be read, and one lease at most is open.
pub run_calls-valid :
    (timeout : ℕ) (db : Database) (calls : List Call)
    → rows_are_valid db.leases ≡ true
    → rows_are_valid (run_calls timeout db calls).leases ≡ true
unfolding run_calls
run_calls-valid timeout db [] valid = valid
run_calls-valid timeout db (c ∷ calls) valid = elim (Result-cases (answer timeout db c)) [
  | inl (l, d, same) ↦
      rw (run_done timeout db c calls l d same)
        (run_calls-valid timeout d calls (answer-valid timeout db d c l same valid))
  | inr (e, refused) ↦
      rw (run_refused timeout db c calls e refused) (run_calls-valid timeout db calls valid)
]
