-- ===== src/Accounting/Reports/Rows.antt =====
-- backend/src/accounting/reports/reports.service.ts: the rows that the reports share, one for each
-- group of balances.
use advanced_accountancy.Prelude.{
  String, ◌==◌, Bool, true, false, ◌&&◌, Option, none, some, List, [], ◌∷◌, find, str_eq,
  if◌then◌else◌,
}
use advanced_accountancy.Prelude.Int.{◌+ℤ◌, ◌-ℤ◌}
use advanced_accountancy.Schema.{
  Uuid, Cents, ChartOfAccount, AccountType, asset, liability, equity, income, expense,
  AccountingPeriod, GlAccountBalance, Db,
}
use advanced_accountancy.Accounting.Engine.Ledger.{Selection}

-- The columns that the queries group by.
pub record Group : Type 0 where
  pub account_code : String
  pub name : String
  pub account_type : AccountType
  pub mis_category : Option String

unfoldable pub type_eq : AccountType → AccountType → Bool
type_eq asset asset = true
type_eq liability liability = true
type_eq equity equity = true
type_eq income income = true
type_eq expense expense = true
type_eq _ _ = false

abbrev pub opt_str_eq : Option String → Option String → Bool
opt_str_eq none none = true
opt_str_eq (some a) (some b) = str_eq a b
opt_str_eq _ _ = false

unfoldable pub same_group : Group → Group → Bool
unfolding type_eq
same_group a b =
    str_eq a.account_code b.account_code
    && str_eq a.name b.name
    && type_eq a.account_type b.account_type
    && opt_str_eq a.mis_category b.mis_category

-- `mapAccountRow`: the sums of a group.
pub record AccountRow : Type 0 where
  pub group : Group
  pub debit : Cents
  pub credit : Cents
  pub balance : Cents

abbrev pub map_account_row : Group → Cents → Cents → AccountRow
map_account_row group debit credit = record {
  group = group;
  debit = debit;
  credit = credit;
  balance = debit -ℤ credit;
}

abbrev pub account_has_id : Uuid → ChartOfAccount → Bool
account_has_id id a = a.id == id

abbrev pub period_has_id : Uuid → AccountingPeriod → Bool
period_has_id id p = p.id == id

abbrev pub group_of : ChartOfAccount → Group
group_of a = record {
  account_code = a.account_code;
  name = a.name;
  account_type = a.account_type;
  mis_category = a.mis_category;
}

-- An inner join: a row without a partner is left out.
abbrev pub joins {ℓ} : {A : Type ℓ} → (A → Bool) → Option A → Bool
joins test none = false
joins test (some a) = test a

-- The `WHERE` of a query, with its tests of the period and of the account's group.
abbrev pub in_query : Uuid → (AccountingPeriod → Bool) → (Group → Bool) → Db → Selection
in_query company_id in_time in_scope s k =
    (k.company_id == company_id)
    && joins (λ a. in_scope (group_of a)) (find (account_has_id k.account_id) s.chart_of_accounts)
    && joins in_time (find (period_has_id k.accounting_period_id) s.accounting_periods)

-- `GROUP BY`: the sums of the row's group, or a new group.
unfoldable pub add_group : Group → Cents → Cents → List AccountRow → List AccountRow
add_group g debit credit [] = map_account_row g debit credit ∷ []
add_group g debit credit (r ∷ rest) =
    if same_group r.group g
    then map_account_row g (r.debit +ℤ debit) (r.credit +ℤ credit) ∷ rest
    else r ∷ add_group g debit credit rest

abbrev pub add_balance :
    Option ChartOfAccount → GlAccountBalance → List AccountRow → List AccountRow
add_balance none b rows = rows
add_balance (some a) b rows = add_group (group_of a) b.debit_total b.credit_total rows

-- The groups of the balances that a query selects.
unfoldable pub group_rows :
    List ChartOfAccount → Selection → List GlAccountBalance → List AccountRow
group_rows chart w [] = []
group_rows chart w (b ∷ bs) =
    let rest = group_rows chart w bs in
    if w b.key then add_balance (find (account_has_id b.key.account_id) chart) b rest else rest

-- `ORDER BY`
unfoldable pub insert_row {ℓ} : {A : Type ℓ} → (A → A → Bool) → A → List A → List A
insert_row before r [] = r ∷ []
insert_row before r (q ∷ rest) = if before r q then r ∷ q ∷ rest else q ∷ insert_row before r rest

unfoldable pub order_rows {ℓ} : {A : Type ℓ} → (A → A → Bool) → List A → List A
order_rows before [] = []
order_rows before (r ∷ rest) = insert_row before r (order_rows before rest)

abbrev pub type_name : AccountType → String
type_name asset = "asset"
type_name liability = "liability"
type_name equity = "equity"
type_name income = "income"
type_name expense = "expense"

-- A null comes last.
abbrev pub opt_collates : (String → String → Bool) → Option String → Option String → Bool
opt_collates collates none none = true
opt_collates collates none (some _) = false
opt_collates collates (some _) none = true
opt_collates collates (some a) (some b) = collates a b

module _ (collates : String → String → Bool) where
  abbrev pub by_code : AccountRow → AccountRow → Bool
  by_code a b = collates a.group.account_code b.group.account_code

  abbrev pub by_type : AccountRow → AccountRow → Bool
  by_type a b =
      if type_eq a.group.account_type b.group.account_type
      then by_code a b
      else collates (type_name a.group.account_type) (type_name b.group.account_type)

  abbrev pub by_category : AccountRow → AccountRow → Bool
  by_category a b =
      if opt_str_eq a.group.mis_category b.group.mis_category
      then by_code a b
      else opt_collates collates a.group.mis_category b.group.mis_category
