-- ===== src/Domain/Acceptance/Frames.antt =====
-- An update changes the status of the condition that it names, and of its kind only.
use ai_coding_agent_harness.Base.{
  sym, ◌∙◌, ap, any, String, ◌≡◌, refl, ◌⊎◌, inl, inr, true, false, some, List, [], ◌∷◌, ◌++◌, ◌==◌,
  text_comparable, All, Corresponds, Corresponds-map, Object, find_first, arith, Bool-cases,
  text_equals_iff,
}
use ai_coding_agent_harness.Domain.Models.{ContractVersion}
use ai_coding_agent_harness.Domain.AcceptanceModels.{
  AcceptanceHistoryEvent, AcceptanceCondition, AcceptanceContract, AcceptanceUpdateResult,
  are_unique, identities, contract_is_valid,
}
use ai_coding_agent_harness.Domain.Acceptance.{
  Outcome, updated_condition, updated_contract, is_machine, condition_by_identity, evidence_outcome,
  command_outcome,
}
use ai_coding_agent_harness.Domain.Acceptance.Updates.{
  Update, by_machine, by_user, answer, answer_cases, comes_from_machine, named_condition,
  outcome_of,
}

absent_identity :
    (i : String) (ds : List AcceptanceCondition)
    → any (λ y. y == i) (identities ds) ≡ false
    → All (λ d. (d.identity == i) ≡ false) ds
absent_identity i [] h = tt
absent_identity i (d ∷ ds) h = (ground arith, absent_identity i ds (ground arith))

others :
    (i : String) (c : AcceptanceCondition) (ds : List AcceptanceCondition)
    → All (λ d. (d.identity == i) ≡ false) ds
    → All (λ d. ((d.identity == i) ≡ false) ⊎ (d ≡ c)) ds
others i c [] h = tt
others i c (d ∷ ds) (differs, rest) = (inl differs, others i c ds rest)

-- A found condition bears the identity, and no other condition does.
found_only :
    (i : String) (c : AcceptanceCondition) (ds : List AcceptanceCondition)
    → are_unique (identities ds) ≡ true
    → find_first (λ d. d.identity == i) ds ≡ some c
    → (c.identity ≡ i) × All (λ d. ((d.identity == i) ≡ false) ⊎ (d ≡ c)) ds
unfolding are_unique find_first
found_only i c [] unique h = absurd (ground arith)
found_only i c (d ∷ ds) unique h = elim (Bool-cases (d.identity == i)) [
  | inr differs ↦
      let (same, rest) = found_only i c ds (ground arith) (ground arith) in
      (same, (inl differs, rest))
  | inl named ↦
      let here : d ≡ c = ground arith in
      let bears : d.identity ≡ i = (text_equals_iff d.identity i).0 named in
      (let alone : any (λ y. y == d.identity) (identities ds) ≡ false = ground arith in
        (
          ap (λ a. a.identity) (sym here) ∙ bears,
          (inr here, others i c ds (absent_identity i ds (rw (← bears) alone))),
        ))
]

-- The two conditions differ at most in their status, reason, digest and version, and in the
-- status only if the update names the condition and is of its kind.
pub Keeps : Update → AcceptanceCondition → AcceptanceCondition → Type 0
Keeps update d d' =
    ((d'.identity ≡ d.identity) × (d'.kind ≡ d.kind) × (d'.required ≡ d.required))
    × ((d'.status ≡ d.status)
        ⊎ ((d.identity ≡ named_condition update) × (is_machine d.kind ≡ comes_from_machine update)))

updated_condition-Keeps :
    (update : Update) (o : Outcome) (v : ContractVersion)
    → o.condition.identity ≡ named_condition update
    → is_machine o.condition.kind ≡ comes_from_machine update
    → (d : AcceptanceCondition)
    → ((d.identity == named_condition update) ≡ false) ⊎ (d ≡ o.condition)
    → Keeps update d (updated_condition o v d)
unfolding Keeps updated_condition
updated_condition-Keeps update o v bears of_kind d (inl differs) =
    ((refl, refl, refl), inl (ground arith))
updated_condition-Keeps update o v bears of_kind d (inr same) = (
  (refl, refl, refl),
  inr (ap (λ a. a.identity) same ∙ bears, ap (λ a. is_machine a.kind) same ∙ of_kind),
)

condition_of :
    (update : Update) (contract : AcceptanceContract) (c : AcceptanceCondition)
    (v : ContractVersion)
    → (outcome_of update contract c v).condition ≡ c
unfolding evidence_outcome command_outcome
condition_of (by_machine e) contract c v = refl
condition_of (by_user command) contract c v = refl

-- An update of a valid contract that is accepted and no replay withdraws the approval, adds one
-- event to the history, and changes the status of no condition but the one that it names, and of
-- that only if the condition is for a machine and the update machine evidence, or neither.
pub answer_changes :
    (update : Update) (contract : AcceptanceContract) (new_version : Object ContractVersion)
    {r : AcceptanceUpdateResult}
    → contract_is_valid contract ≡ true
    → answer update contract new_version ≡ some r
    → r.accepted ≡ true
    → r.duplicate ≡ false
    → (r.contract.approved ≡ false)
      × ((event : AcceptanceHistoryEvent) × (r.contract.history ≡ contract.history ++ (event ∷ [])))
      × Corresponds (Keeps update) contract.conditions r.contract.conditions
unfolding contract_is_valid updated_contract condition_by_identity
answer_changes update contract new_version {r} valid h accepted fresh =
    elim (answer_cases update contract new_version h) [
      | inl (inl refused, same) ↦ absurd (ground arith)
      | inl (inr replayed, same) ↦ absurd (ground arith)
      | inr changes ↦
          let o = outcome_of update contract changes.condition changes.version in
          let same = condition_of update contract changes.condition changes.version in
          let (bears, only) =
            found_only (named_condition update) changes.condition contract.conditions (ground arith)
              changes.found in
          rw changes.updated (
            refl,
            (o.event, refl),
            Corresponds-map (Keeps update) (updated_condition o changes.version)
                (updated_condition-Keeps update o changes.version
                  (ap (λ a. a.identity) same ∙ bears)
                  (ap (λ a. is_machine a.kind) same ∙ changes.of_kind))
                contract.conditions (rw same only),
          )
    ]
