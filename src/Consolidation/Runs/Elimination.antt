-- ===== src/Consolidation/Runs/Elimination.antt =====
-- backend/src/consolidation/consolidation-runs.ts: what a group's eliminations sum to.
use mathlib.Core.Path.{ap₂}
use advanced_accountancy.Prelude.{
  ◌≡◌, refl, sym, ap, ◌∙◌, inl, inr, List, [], ◌∷◌, find_many, sum_by, All, Bool-cases, length,
  arith,
}
use advanced_accountancy.Prelude.Int.{ℤ, pos, neg, ◌+ℤ◌, int_laws}
use advanced_accountancy.Schema.{Uuid, Cents, Company, IntercompanyTransaction}
use advanced_accountancy.Accounting.Engine.Ledger.{picked}
use advanced_accountancy.Consolidation.Runs.{touches, elimination_total}

-- The sum, over the companies, of what is eliminated of one transaction.
abbrev pub eliminated_of : List Company → IntercompanyTransaction → Cents
eliminated_of companies t = sum_by (λ c. picked (touches c.id t) (neg t.amount)) companies

picked_sum :
    (txns : List IntercompanyTransaction) (id : Uuid)
    → elimination_total id txns ≡ sum_by (λ t. picked (touches id t) (neg t.amount)) txns
unfolding elimination_total
picked_sum [] id = refl
picked_sum (t ∷ txns) id = elim (Bool-cases (touches id t)) [
  | inl on ↦ rw on (ap (λ (x : ℤ). neg t.amount +ℤ x) (picked_sum txns id))
  | inr off ↦ rw off (picked_sum txns id ∙ omega int_laws)
]

zero_add : (a : ℤ) → pos 0 +ℤ a ≡ a
zero_add a = omega int_laws

mix : (a b c d : ℤ) → a +ℤ b +ℤ (c +ℤ d) ≡ a +ℤ c +ℤ (b +ℤ d)
mix a b c d = omega int_laws

no_companies_left : (txns : List IntercompanyTransaction) → sum_by (eliminated_of []) txns ≡ pos 0
no_companies_left [] = refl
no_companies_left (t ∷ txns) = rw (no_companies_left txns) (omega int_laws)

one_more :
    (c : Company) (companies : List Company) (txns : List IntercompanyTransaction)
    → sum_by (λ t. picked (touches c.id t) (neg t.amount)) txns
        +ℤ sum_by (eliminated_of companies) txns
      ≡ sum_by (eliminated_of (c ∷ companies)) txns
one_more c companies [] = omega int_laws
one_more c companies (t ∷ txns) =
    mix _ _ _ _
    ∙ ap (λ (x : ℤ). picked (touches c.id t) (neg t.amount) +ℤ eliminated_of companies t +ℤ x)
        (one_more c companies txns)

-- By company, or by transaction.
pub eliminations_swap :
    (companies : List Company) (txns : List IntercompanyTransaction)
    → sum_by (λ c. elimination_total c.id txns) companies ≡ sum_by (eliminated_of companies) txns
eliminations_swap [] txns = sym (no_companies_left txns)
eliminations_swap (c ∷ companies) txns =
    ap₂ ◌+ℤ◌ (picked_sum txns c.id) (eliminations_swap companies txns) ∙ one_more c companies txns

-- Just two of the companies are parties of the transaction.
abbrev pub HasBothParties : List Company → IntercompanyTransaction → Type 0
HasBothParties companies t = length (find_many (λ c. touches c.id t) companies) ≡ 2

two_times : (m : ℤ) (xs : List Company) → length xs ≡ 2 → sum_by (λ c. m) xs ≡ m +ℤ m
two_times m [] h = absurd (omega arith)
two_times m (x ∷ []) h = absurd (omega arith)
two_times m (x ∷ y ∷ []) h = omega int_laws
two_times m (x ∷ y ∷ z ∷ xs) h = absurd (omega arith)

touched_only :
    (t : IntercompanyTransaction) (m : ℤ) (companies : List Company)
    → sum_by (λ c. picked (touches c.id t) m) companies
      ≡ sum_by (λ c. m) (find_many (λ c. touches c.id t) companies)
touched_only t m [] = refl
touched_only t m (c ∷ companies) = elim (Bool-cases (touches c.id t)) [
  | inl on ↦ rw on (ap (λ (x : ℤ). m +ℤ x) (touched_only t m companies))
  | inr off ↦ rw off (zero_add _ ∙ touched_only t m companies)
]

twice_step : (a s : ℤ) → neg a +ℤ neg a +ℤ neg (s +ℤ s) ≡ neg (a +ℤ s +ℤ (a +ℤ s))
twice_step a s = omega int_laws

twice_amounts :
    (companies : List Company) (txns : List IntercompanyTransaction)
    → All (HasBothParties companies) txns
    → sum_by (eliminated_of companies) txns
      ≡ neg (sum_by (λ t. t.amount) txns +ℤ sum_by (λ t. t.amount) txns)
twice_amounts companies [] h = omega int_laws
twice_amounts companies (t ∷ txns) h =
    ap₂ ◌+ℤ◌ (touched_only t (neg t.amount) companies ∙ two_times (neg t.amount) _ h.0)
      (twice_amounts companies txns h.1)
    ∙ twice_step t.amount (sum_by (λ t. t.amount) txns)

-- Where each of some matched transactions has exactly two of the companies as its parties, the
-- companies' elimination totals sum to minus twice the sum of the transactions' amounts.
pub eliminations_twice :
    (companies : List Company) (txns : List IntercompanyTransaction)
    → All (HasBothParties companies) txns
    → sum_by (λ c. elimination_total c.id txns) companies
      ≡ neg (sum_by (λ t. t.amount) txns +ℤ sum_by (λ t. t.amount) txns)
eliminations_twice companies txns h =
    eliminations_swap companies txns ∙ twice_amounts companies txns h
