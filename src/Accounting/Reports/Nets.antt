-- ===== src/Accounting/Reports/Nets.antt =====
-- backend/src/accounting/reports/reports.service.ts: sums over the groups of a test, and over disjoint
-- tests.
use advanced_accountancy.Prelude.{
  ◌≡◌, refl, ap, ◌∙◌, inl, inr, Bool, true, false, ◌&&◌, ◌||◌, List, [], ◌∷◌, arith, find_many, map,
  sum_by, All, Bool-cases, String, str_eq, eq_iff, Option-cases,
}
use advanced_accountancy.Prelude.Int.{ℤ, pos, neg, ◌+ℤ◌, ◌-ℤ◌, int_laws}
use advanced_accountancy.Schema.{
  Cents, Side, debit, credit, AccountType, asset, liability, equity, GlKey, GlAccountBalance,
}
use advanced_accountancy.Accounting.Engine.Ledger.{Selection, picked}
use advanced_accountancy.Accounting.Reports.{
  Group, type_eq, AccountRow, has_category, of_category, negate_row, sum_balance,
  profit_and_loss_of,
}
use advanced_accountancy.Accounting.Reports.Groups.{
  of_side, row_amount, column, balance_column, IsDerived,
}

-- Debits less credits, over the groups that a test picks.
abbrev pub net : (Group → Bool) → List AccountRow → Cents
net t rows = column debit t rows -ℤ column credit t rows

net_step : (x d c ds cs s : ℤ) → x ≡ d -ℤ c → s ≡ ds -ℤ cs → x +ℤ s ≡ d +ℤ ds -ℤ (c +ℤ cs)
net_step x d c ds cs s e h = rw (e, h) (omega int_laws)

skip_step : (ds cs s : ℤ) → s ≡ ds -ℤ cs → s ≡ pos 0 +ℤ ds -ℤ (pos 0 +ℤ cs)
skip_step ds cs s h = rw h (omega int_laws)

pub sum_balance-find_many :
    (t : Group → Bool) (rows : List AccountRow)
    → All IsDerived rows
    → sum_balance (find_many (λ r. t r.group) rows) ≡ net t rows
sum_balance-find_many t [] d = omega int_laws
sum_balance-find_many t (r ∷ rows) d =
    let ih = sum_balance-find_many t rows d.1 in
    elim (Bool-cases (t r.group)) [
      | inl on ↦ rw on (net_step _ _ _ _ _ _ d.0 ih)
      | inr off ↦ rw off (skip_step _ _ _ ih)
    ]

pub sum_balance-negated :
    (rows : List AccountRow) → sum_balance (map negate_row rows) ≡ neg (sum_balance rows)
sum_balance-negated [] = omega int_laws
sum_balance-negated (r ∷ rows) = rw (sum_balance-negated rows) (omega int_laws)

sum_debits :
    (t : Group → Bool) (rows : List AccountRow)
    → sum_by (λ a. a.debit -ℤ a.credit) (find_many (λ r. t r.group) rows) ≡ net t rows
sum_debits t [] = omega int_laws
sum_debits t (r ∷ rows) =
    let ih = sum_debits t rows in
    elim (Bool-cases (t r.group)) [
      | inl on ↦ rw on (net_step _ _ _ _ _ _ refl ih)
      | inr off ↦ rw off (skip_step _ _ _ ih)
    ]

sum_credits :
    (rows : List AccountRow)
    → sum_by (λ a. a.credit -ℤ a.debit) rows ≡ neg (sum_by (λ a. a.debit -ℤ a.credit) rows)
sum_credits [] = omega int_laws
sum_credits (r ∷ rows) = rw (sum_credits rows) (omega int_laws)

-- Two disjoint sets of groups.
split_add :
    (x y : Bool) (a s t : ℤ)
    → x && y ≡ false
    → picked (x || y) a +ℤ (s +ℤ t) ≡ picked x a +ℤ s +ℤ (picked y a +ℤ t)
split_add true true a s t h = ground arith
split_add true false a s t h = omega int_laws
split_add false true a s t h = omega int_laws
split_add false false a s t h = omega int_laws

column-or :
    (side : Side) (t u : Group → Bool) (rows : List AccountRow)
    → ((g : Group) → t g && u g ≡ false)
    → column side (λ g. t g || u g) rows ≡ column side t rows +ℤ column side u rows
column-or side t u [] h = omega int_laws
column-or side t u (r ∷ rows) h = rw (column-or side t u rows h) (
    split_add (t r.group) (u r.group) (row_amount side r) (column side t rows) (column side u rows)
      (h r.group))

net-or :
    (t u : Group → Bool) (rows : List AccountRow)
    → ((g : Group) → t g && u g ≡ false)
    → net (λ g. t g || u g) rows ≡ net t rows +ℤ net u rows
net-or t u rows h = rw (column-or debit t u rows h, column-or credit t u rows h) (omega int_laws)

pub balance_column-or :
    (side : Side) (v w z : Selection) (bs : List GlAccountBalance)
    → ((k : GlKey) → (z k ≡ v k || w k) × (v k && w k ≡ false))
    → balance_column side z bs ≡ balance_column side v bs +ℤ balance_column side w bs
balance_column-or side v w z [] h = omega int_laws
balance_column-or side v w z (b ∷ bs) h =
    let (e, apart) = h b.key in
    rw (e, balance_column-or side v w z bs h)
      (split_add (v b.key) (w b.key) (of_side side b.debit_total b.credit_total)
        (balance_column side v bs) (balance_column side w bs) apart)

abbrev pub is_type : AccountType → Group → Bool
is_type a g = type_eq g.account_type a

pub apart_types :
    (g : Group)
    → ((is_type asset g || is_type liability g) && is_type equity g ≡ false)
      × (is_type asset g && is_type liability g ≡ false)
unfolding type_eq
apart_types g = ground arith

two_names :
    (c d : String) (g : Group) → str_eq c d ≡ false → has_category c g && has_category d g ≡ false
two_names c d g ne = elim (Option-cases g.mis_category) [
  | inl e ↦ rw e refl
  | inr (m, e) ↦ rw e (ground (arith, eq_iff m c, eq_iff m d, eq_iff c d))
]

pub apart_categories :
    (g : Group)
    → ((has_category "REVENUE" g || has_category "COGS" g) && has_category "OPEX" g ≡ false)
      × (has_category "REVENUE" g && has_category "COGS" g ≡ false)
apart_categories g = ground (
  arith,
  two_names "REVENUE" "COGS" g refl,
  two_names "REVENUE" "OPEX" g refl,
  two_names "COGS" "OPEX" g refl,
)

pub six :
    (a l e r c o : ℤ) → a -ℤ (neg l +ℤ (neg e +ℤ (neg r -ℤ c -ℤ o))) ≡ a +ℤ l +ℤ e +ℤ (r +ℤ c +ℤ o)
six a l e r c o = omega int_laws

pub three_nets :
    (t u v : Group → Bool) (rows : List AccountRow)
    → ((g : Group) → (t g || u g) && v g ≡ false)
    → ((g : Group) → t g && u g ≡ false)
    → net (λ g. t g || u g || v g) rows ≡ net t rows +ℤ net u rows +ℤ net v rows
three_nets t u v rows h k =
    net-or (λ g. t g || u g) v rows h ∙ ap (λ (x : ℤ). x +ℤ net v rows) (net-or t u rows k)

pub net_profit_lem :
    (rows : List AccountRow)
    → (profit_and_loss_of rows).net_profit
      ≡ neg (net (has_category "REVENUE") rows)
        -ℤ net (has_category "COGS") rows
        -ℤ net (has_category "OPEX") rows
net_profit_lem rows =
    rw
      (
        sum_credits (of_category "REVENUE" rows),
        sum_debits (has_category "REVENUE") rows,
        sum_debits (has_category "COGS") rows,
        sum_debits (has_category "OPEX") rows,
      )
      refl
