-- ===== src/Accounting/Reports/Groups.antt =====
-- backend/src/accounting/reports/reports.service.ts: what the rows of a report sum to. Grouping,
-- ordering and filtering keep the sums of the balances that a query selects.
use advanced_accountancy.Prelude.{
  ◌≡◌, refl, ap, ◌∙◌, inl, inr, Bool, true, ◌&&◌, Option, none, some, List, [], ◌∷◌, arith, find,
  sum_by, All, Bool-cases, String, str_eq, eq_iff,
}
use advanced_accountancy.Prelude.Int.{ℤ, ◌+ℤ◌, ◌-ℤ◌, int_laws}
use advanced_accountancy.Schema.{
  Uuid, Cents, Side, debit, credit, AccountType, AccountingPeriod, ChartOfAccount, GlAccountBalance,
  Db,
}
use advanced_accountancy.Accounting.Engine.Ledger.{Selection, picked, picked_add}
use advanced_accountancy.Accounting.Reports.{
  Group, type_eq, opt_str_eq, same_group, AccountRow, account_has_id, group_of, joins, in_query,
  add_group, add_balance, group_rows, insert_row, order_rows, query_rows,
}

-- Groups that compare equal are equal.
type_eq→≡ : (a b : AccountType) → type_eq a b ≡ true → a ≡ b
unfolding type_eq
type_eq→≡ a b h = ground arith

str_eq→≡ : (a b : String) → str_eq a b ≡ true → a ≡ b
str_eq→≡ a b h = (eq_iff a b).0 h

opt_str_eq→≡ : (a b : Option String) → opt_str_eq a b ≡ true → a ≡ b
opt_str_eq→≡ none none h = refl
opt_str_eq→≡ (some a) (some b) h = ap some (str_eq→≡ a b h)
opt_str_eq→≡ none (some b) h = ground arith
opt_str_eq→≡ (some a) none h = ground arith

pub same_group→≡ : (a b : Group) → same_group a b ≡ true → a ≡ b
unfolding same_group
same_group→≡ a b h = ground (
  arith,
  str_eq→≡ a.account_code b.account_code,
  str_eq→≡ a.name b.name,
  type_eq→≡ a.account_type b.account_type,
  opt_str_eq→≡ a.mis_category b.mis_category,
)

opt_str_eq_self : (a : Option String) → opt_str_eq a a ≡ true
opt_str_eq_self none = refl
opt_str_eq_self (some a) = (eq_iff a a).1 refl

type_eq_self : (a : AccountType) → type_eq a a ≡ true
unfolding type_eq
type_eq_self a = ground arith

pub same_group_self : (a : Group) → same_group a a ≡ true
unfolding same_group
same_group_self a = ground (
  arith,
  eq_iff a.account_code a.account_code,
  eq_iff a.name a.name,
  type_eq_self a.account_type,
  opt_str_eq_self a.mis_category,
)

-- The two columns of a row, and of a balance.
abbrev pub of_side : Side → Cents → Cents → Cents
of_side debit d c = d
of_side credit d c = c

abbrev pub row_amount : Side → AccountRow → Cents
row_amount side r = of_side side r.debit r.credit

-- A column, over the groups that a test picks.
abbrev pub column : Side → (Group → Bool) → List AccountRow → Cents
column side t = sum_by (λ r. picked (t r.group) (row_amount side r))

abbrev pub balance_column : Side → Selection → List GlAccountBalance → Cents
balance_column side w = sum_by (λ b. picked (w b.key) (of_side side b.debit_total b.credit_total))

-- The keys whose account is in a group that a test picks.
abbrev pub in_group : (Group → Bool) → List ChartOfAccount → Selection
in_group t chart k = joins (λ a. t (group_of a)) (find (account_has_id k.account_id) chart)

of_side-add :
    (side : Side) (d c d' c' : Cents)
    → of_side side (d +ℤ d') (c +ℤ c') ≡ of_side side d c +ℤ of_side side d' c'
of_side-add debit d c d' c' = refl
of_side-add credit d c d' c' = refl

add_first : (x y s : ℤ) → y +ℤ (x +ℤ s) ≡ x +ℤ (y +ℤ s)
add_first x y s = omega int_laws

module _ (side : Side) (t : Group → Bool) where
  column-add_group :
      (g : Group) (d c : Cents) (rows : List AccountRow)
      → column side t (add_group g d c rows) ≡ column side t rows +ℤ picked (t g) (of_side side d c)
  unfolding add_group
  column-add_group g d c [] = omega int_laws
  column-add_group g d c (r ∷ rows) = elim (Bool-cases (same_group r.group g)) [
    | inl same ↦ rw same (
        rw (same_group→≡ r.group g same, of_side-add side r.debit r.credit d c)
          (picked_add (t g) (row_amount side r) (of_side side d c) (column side t rows)))
    | inr other ↦ rw (other, column-add_group g d c rows) (omega int_laws)
  ]

  column-add_balance :
      (a : Option ChartOfAccount) (b : GlAccountBalance) (rows : List AccountRow)
      → column side t (add_balance a b rows)
        ≡ picked (joins (λ x. t (group_of x)) a) (of_side side b.debit_total b.credit_total)
          +ℤ column side t rows
  column-add_balance none b rows = omega int_laws
  column-add_balance (some a) b rows =
      rw (column-add_group (group_of a) b.debit_total b.credit_total rows) (omega int_laws)

  pub column-group_rows :
      (chart : List ChartOfAccount) (w : Selection) (bs : List GlAccountBalance)
      → column side t (group_rows chart w bs)
        ≡ balance_column side (λ k. w k && in_group t chart k) bs
  unfolding group_rows
  column-group_rows chart w [] = refl
  column-group_rows chart w (b ∷ bs) = elim (Bool-cases (w b.key)) [
    | inl on ↦
        rw
          (
            on,
            column-add_balance (find (account_has_id b.key.account_id) chart) b
                (group_rows chart w bs),
            column-group_rows chart w bs,
          )
          refl
    | inr off ↦ rw (off, column-group_rows chart w bs) (omega int_laws)
  ]

-- Ordering keeps the sums, and what holds of every row.
sum-insert_row {ℓ} :
    {A : Type ℓ} (f : A → ℤ) (before : A → A → Bool) (r : A) (rows : List A)
    → sum_by f (insert_row before r rows) ≡ f r +ℤ sum_by f rows
unfolding insert_row
sum-insert_row f before r [] = refl
sum-insert_row f before r (q ∷ rows) = elim (Bool-cases (before r q)) [
  | inl here ↦ rw here refl
  | inr there ↦ rw (there, sum-insert_row f before r rows) (omega int_laws)
]

pub sum-order_rows {ℓ} :
    {A : Type ℓ} (f : A → ℤ) (before : A → A → Bool) (rows : List A)
    → sum_by f (order_rows before rows) ≡ sum_by f rows
unfolding order_rows
sum-order_rows f before [] = refl
sum-order_rows f before (r ∷ rows) =
    sum-insert_row f before r (order_rows before rows)
    ∙ ap (λ (x : ℤ). f r +ℤ x) (sum-order_rows f before rows)

module _ {ℓ} (P : AccountRow → Type ℓ) (before : AccountRow → AccountRow → Bool) where
  All-insert_row :
      (r : AccountRow) (rows : List AccountRow)
      → P r
      → All P rows
      → All P (insert_row before r rows)
  unfolding insert_row
  All-insert_row r [] p a = (p, tt)
  All-insert_row r (q ∷ rows) p a = elim (Bool-cases (before r q)) [
    | inl here ↦ rw here (p, a)
    | inr there ↦ rw there (a.0, All-insert_row r rows p a.1)
  ]

  pub All-order_rows : (rows : List AccountRow) → All P rows → All P (order_rows before rows)
  unfolding order_rows
  All-order_rows [] a = tt
  All-order_rows (r ∷ rows) a = All-insert_row r _ a.0 (All-order_rows rows a.1)

-- What a report's rows sum to, over any of the groups.
pub column-query_rows :
    (side : Side) (t : Group → Bool) (before : AccountRow → AccountRow → Bool) (company_id : Uuid)
    (in_time : AccountingPeriod → Bool) (in_scope : Group → Bool) (s : Db)
    → column side t (query_rows before company_id in_time in_scope s)
      ≡ balance_column side
          (λ k. in_query company_id in_time in_scope s k && in_group t s.chart_of_accounts k)
          s.gl_balances
column-query_rows side t before company_id in_time in_scope s =
    sum-order_rows (λ r. picked (t r.group) (row_amount side r)) before _
    ∙ column-group_rows side t s.chart_of_accounts (in_query company_id in_time in_scope s)
        s.gl_balances

-- Every row's balance is its debits less its credits.
abbrev pub IsDerived : AccountRow → Type 0
IsDerived r = r.balance ≡ r.debit -ℤ r.credit

add_group-IsDerived :
    (g : Group) (d c : Cents) (rows : List AccountRow)
    → All IsDerived rows
    → All IsDerived (add_group g d c rows)
unfolding add_group
add_group-IsDerived g d c [] a = (refl, tt)
add_group-IsDerived g d c (r ∷ rows) a = elim (Bool-cases (same_group r.group g)) [
  | inl same ↦ rw same (refl, a.1)
  | inr other ↦ rw other (a.0, add_group-IsDerived g d c rows a.1)
]

add_balance-IsDerived :
    (a : Option ChartOfAccount) (b : GlAccountBalance) (rows : List AccountRow)
    → All IsDerived rows
    → All IsDerived (add_balance a b rows)
add_balance-IsDerived none b rows d = d
add_balance-IsDerived (some a) b rows d =
    add_group-IsDerived (group_of a) b.debit_total b.credit_total rows d

pub group_rows-IsDerived :
    (chart : List ChartOfAccount) (w : Selection) (bs : List GlAccountBalance)
    → All IsDerived (group_rows chart w bs)
unfolding group_rows
group_rows-IsDerived chart w [] = tt
group_rows-IsDerived chart w (b ∷ bs) = elim (Bool-cases (w b.key)) [
  | inl on ↦ rw on (
      add_balance-IsDerived (find (account_has_id b.key.account_id) chart) b _
        (group_rows-IsDerived chart w bs))
  | inr off ↦ rw off (group_rows-IsDerived chart w bs)
]

pub query_rows-IsDerived :
    (before : AccountRow → AccountRow → Bool) (company_id : Uuid)
    (in_time : AccountingPeriod → Bool) (in_scope : Group → Bool) (s : Db)
    → All IsDerived (query_rows before company_id in_time in_scope s)
query_rows-IsDerived before company_id in_time in_scope s =
    All-order_rows IsDerived before _ (group_rows-IsDerived s.chart_of_accounts _ s.gl_balances)
