-- ===== src/Domain/Approvals/Items.antt =====
-- How `==` compares the budget dimensions of an approval and of its context.
use ai_coding_agent_harness.Base.{
  ◌==◌, nat_comparable, Bool, ap, and_iff, same_iff, ◌≡◌, ◌↔◌, refl, true, List, [], ◌∷◌, map,
}
use ai_coding_agent_harness.Base.Int.{ℤ, int_eq}
use ai_coding_agent_harness.Domain.Budgets.{BudgetDimension, budget_dimension_eq}
use ai_coding_agent_harness.Domain.ApprovalModels.{
  BudgetItem, BudgetPairs, item_equals, pair_equals, lists_equal,
}

-- The one value for all that equal an item: the member, for the text that it equals.
abbrev pub as_compared : BudgetItem → BudgetItem
as_compared (BudgetItem.member d) = BudgetItem.member d
as_compared (BudgetItem.named d) = BudgetItem.member d
as_compared (BudgetItem.foreign k) = BudgetItem.foreign k

abbrev pub pair_compared : BudgetItem × ℤ → BudgetItem × ℤ
pair_compared p = (as_compared p.0, p.1)

abbrev pub compared_items : List BudgetItem → List BudgetItem
compared_items items = map as_compared items

abbrev pub compared_pairs : BudgetPairs → BudgetPairs
compared_pairs pairs = map pair_compared pairs

members_iff :
    (d e : BudgetDimension) → ((d == e) ≡ true) ↔ (BudgetItem.member d ≡ BudgetItem.member e)
members_iff d e = let same = same_iff d e in (λ h. ap BudgetItem.member (same.0 h), λ p. same.1 cc)

pub item_equals_iff :
    (x y : BudgetItem) → (item_equals x y ≡ true) ↔ (as_compared x ≡ as_compared y)
unfolding item_equals
item_equals_iff (BudgetItem.member d) (BudgetItem.member e) = members_iff d e
item_equals_iff (BudgetItem.member d) (BudgetItem.named e) = members_iff d e
item_equals_iff (BudgetItem.named d) (BudgetItem.member e) = members_iff d e
item_equals_iff (BudgetItem.named d) (BudgetItem.named e) = members_iff d e
item_equals_iff (BudgetItem.foreign j) (BudgetItem.foreign k) =
    let same = same_iff j k in (λ h. let e = same.0 h in cc, λ e. same.1 cc)
item_equals_iff (BudgetItem.foreign j) (BudgetItem.member d) = (λ h. cc, λ e. cc)
item_equals_iff (BudgetItem.foreign j) (BudgetItem.named d) = (λ h. cc, λ e. cc)
item_equals_iff (BudgetItem.member d) (BudgetItem.foreign j) = (λ h. cc, λ e. cc)
item_equals_iff (BudgetItem.named d) (BudgetItem.foreign j) = (λ h. cc, λ e. cc)

pub pair_equals_iff :
    (p q : BudgetItem × ℤ) → (pair_equals p q ≡ true) ↔ (pair_compared p ≡ pair_compared q)
pair_equals_iff p q =
    let both = and_iff (item_equals_iff p.0 q.0) (same_iff p.1 q.1) in
    (λ h. let (item, amount) = both.0 h in cc, λ e. both.1 (ap (λ x. x.0) e, ap (λ x. x.1) e))

pub lists_equal_iff {ℓ} :
    {A : Type ℓ} (test : A → A → Bool) (view : A → A)
    → ((x y : A) → (test x y ≡ true) ↔ (view x ≡ view y))
    → (xs ys : List A) → (lists_equal test xs ys ≡ true) ↔ (map view xs ≡ map view ys)
unfolding lists_equal
lists_equal_iff test view same [] [] = (λ h. refl, λ e. refl)
lists_equal_iff test view same [] (y ∷ ys) = (λ h. cc, λ e. cc)
lists_equal_iff test view same (x ∷ xs) [] = (λ h. cc, λ e. cc)
lists_equal_iff test view same (x ∷ xs) (y ∷ ys) =
    let both = and_iff (same x y) (lists_equal_iff test view same xs ys) in
    (λ h. let (first, rest) = both.0 h in cc, λ e. both.1 (cc, cc))

pub pairs_equal_iff :
    (ps qs : BudgetPairs)
    → (lists_equal pair_equals ps qs ≡ true) ↔ (compared_pairs ps ≡ compared_pairs qs)
pairs_equal_iff ps qs = lists_equal_iff pair_equals pair_compared pair_equals_iff ps qs
