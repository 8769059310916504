-- ===== src/Persistence/Lease/Readback.antt =====
-- The lease that an operation returns is the row that the database then holds.
use mathlib.Core.List.{Memᴰ}
use ai_coding_agent_harness.Base.{
  find_first-all, ℕ, true, false, some, List, [], ◌∷◌, map, ◌≡◌, refl, arith, inl, inr, find_first,
  select, any, ◌==◌, Bool-cases, text_comparable, same_iff,
}
use ai_coding_agent_harness.Domain.AcceptanceModels.{are_unique}
use ai_coding_agent_harness.Persistence.LeaseModels.{ExecutionLease, Database, Query, Result}
use ai_coding_agent_harness.Persistence.Lease.Answers.{answer-Step}
use ai_coding_agent_harness.Persistence.Lease.{
  lease_is_valid, is_open, has_id, from_row, one_row, open_lease, inspect, Call, answer,
}
use ai_coding_agent_harness.Persistence.Lease.Steps.{
  Update, row_of, change_of, rewritten, Inserts, Updates, inserts, updates, replaces,
}
use ai_coding_agent_harness.Persistence.Lease.Exclusive.{
  change-lease_id, rows_are_valid, rewrite-lease_id, fresh_id, answer-valid,
}

-- The open lease is one of the rows.
pub one_row-some :
    (rows : List ExecutionLease) (l : ExecutionLease)
    → one_row rows ≡ Query.read (some l)
    → rows ≡ l ∷ []
unfolding one_row from_row
one_row-some [] l same = absurd (ground arith)
one_row-some (m ∷ []) l same = ground arith
one_row-some (m ∷ n ∷ more) l same = absurd (ground arith)

pub selected_row :
    (rows : List ExecutionLease) (l : ExecutionLease) (more : List ExecutionLease)
    → select is_open rows ≡ l ∷ more
    → Memᴰ l rows
unfolding select
selected_row [] l more same = absurd (ground arith)
selected_row (m ∷ rows) l more same = elim (Bool-cases (is_open m)) [
  | inl here ↦ Memᴰ.head (ground arith)
  | inr there ↦ Memᴰ.tail (selected_row rows l more (ground arith))
]

has_member :
    (l : ExecutionLease) (rows : List ExecutionLease)
    → Memᴰ l rows
    → any (has_id l.lease_id) rows ≡ true
has_member l [] member = absurd (elim member [ ])
has_member l (m ∷ rows) member = elim member [
  | Memᴰ.head here ↦ let itself = (same_iff l.lease_id l.lease_id).1 refl in ground arith
  | Memᴰ.tail later ↦ let rest = has_member l rows later in ground arith
]

-- A row before another has another identity.
other_row :
    (l m : ExecutionLease) (rows : List ExecutionLease)
    → Memᴰ l rows
    → any (λ y. y == m.lease_id) (map (λ r. r.lease_id) rows) ≡ false
    → (m.lease_id == l.lease_id) ≡ false
other_row l m rows member fresh = elim (Bool-cases (m.lease_id == l.lease_id)) [
  | inr differs ↦ differs
  | inl same ↦
      let equal : m.lease_id ≡ l.lease_id = (same_iff m.lease_id l.lease_id).0 same in
      let there : any (has_id m.lease_id) rows ≡ true = rw equal (has_member l rows member) in
      let absent = fresh_id m.lease_id rows in absurd (cc (there, absent, fresh))
]

found_after :
    (u : Update) (l : ExecutionLease) (rows : List ExecutionLease)
    → Memᴰ l rows
    → are_unique (map (λ r. r.lease_id) rows) ≡ true
    → row_of u l ≡ true
    → find_first (has_id l.lease_id) (rewritten u rows) ≡ some (change_of u l)
unfolding are_unique find_first
found_after u l [] member unique found = absurd (elim member [ ])
found_after u l (m ∷ rows) member unique found = elim member [
  | Memᴰ.head here ↦
      let keeps = rewrite-lease_id u m in
      let itself = (same_iff l.lease_id l.lease_id).1 refl in ground arith
  | Memᴰ.tail later ↦
      let keeps = rewrite-lease_id u m in
      let rest = found_after u l rows later (ground arith) found in
      let differs = other_row l m rows later (ground arith) in ground arith
]

Updates-found :
    (u : Update) (db : Database) (l : ExecutionLease) (after : List ExecutionLease)
    → Updates u db l after
    → rows_are_valid db.leases ≡ true
    → find_first (has_id l.lease_id) after ≡ some l
unfolding rows_are_valid open_lease
Updates-found u db l after step valid =
    let c = step.current in
    let alone = one_row-some (select is_open db.leases) c step.is_current in
    let found =
      found_after u c db.leases (selected_row db.leases c [] alone) (ground arith) step.found in
    let same = step.updated in
    let returned = step.returned in
    let keeps = change-lease_id u c in rw (same, returned, keeps) found

Inserts-found :
    (rows : List ExecutionLease) (l : ExecutionLease) (after : List ExecutionLease)
    → Inserts rows l after
    → find_first (has_id l.lease_id) after ≡ some l
unfolding find_first
Inserts-found rows l after step =
    let same = step.inserted in
    let itself = (same_iff l.lease_id l.lease_id).1 refl in rw same (ground arith)

pub answer-found :
    (timeout : ℕ) (db d : Database) (c : Call) (l : ExecutionLease)
    → answer timeout db c ≡ Result.done l d
    → rows_are_valid db.leases ≡ true
    → find_first (has_id l.lease_id) d.leases ≡ some l
answer-found timeout db d c l same valid = elim (answer-Step timeout db d c l same) [
  | inserts step ↦ Inserts-found db.leases l d.leases step
  | updates u step ↦ Updates-found u db l d.leases step valid
  | replaces lease_id revision old between first second ↦ Inserts-found between l d.leases second
]

-- The lease that a call returns is the one that a reader of the database then finds under its
-- identity: the values that each operation builds by hand are those that its statements wrote.
pub inspect-answer :
    (timeout : ℕ) (db d : Database) (c : Call) (l : ExecutionLease)
    → rows_are_valid db.leases ≡ true
    → answer timeout db c ≡ Result.done l d
    → inspect d l.lease_id ≡ Query.read (some l)
unfolding inspect from_row rows_are_valid lease_is_valid
inspect-answer timeout db d c l valid same =
    let found = answer-found timeout db d c l same valid in
    let after = answer-valid timeout db d c l same valid in
    let readable =
      find_first-all (has_id l.lease_id) lease_is_valid d.leases found (ground arith) in
    ground arith
