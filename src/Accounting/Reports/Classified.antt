-- ===== src/Accounting/Reports/Classified.antt =====
-- backend/src/accounting/reports/reports.service.ts: the balance sheet's two queries, where every
-- account is in the scope of one of them, read what the trial balance reads.
use mathlib.Core.Path.{ap₂}
use advanced_accountancy.Prelude.{
  ◌≡◌, refl, sym, ◌∙◌, inl, inr, Bool, false, not, ◌&&◌, ◌||◌, Option, none, some, List, [], ◌∷◌,
  arith, find, All, Bool-cases, String, ◌==◌, Option-cases,
}
use advanced_accountancy.Prelude.Int.{ℤ, ◌+ℤ◌, ◌-ℤ◌, int_laws}
use advanced_accountancy.Schema.{
  Uuid, Day, Cents, Side, debit, credit, asset, liability, equity, ChartOfAccount, AccountingPeriod,
  GlKey, Db,
}
use advanced_accountancy.Accounting.Engine.Ledger.{balance_debit, balance_credit}
use advanced_accountancy.Accounting.Reports.{
  Group, AccountRow, account_has_id, period_has_id, group_of, joins, in_query, query_rows, ends_by,
  any_group, on_sheet, in_earnings, has_category, in_range, by_type, by_category, of_type,
  profit_and_loss_of, BalanceSheet, sheet_of, balance_sheet_at,
}
use advanced_accountancy.Accounting.Reports.Groups.{
  column, balance_column, column-query_rows, IsDerived, query_rows-IsDerived,
}
use advanced_accountancy.Accounting.Reports.Ledger.{of_company, and_again, balance_column-same}
use advanced_accountancy.Accounting.Reports.Nets.{
  net, sum_balance-find_many, sum_balance-negated, net_profit_lem, six, three_nets, apart_types,
  apart_categories, balance_column-or, is_type,
}

-- Every account is on the sheet or in the earnings, and none in both: the type is a balance sheet
-- type just when the category is none of the three that earnings read.
abbrev pub IsClassified : ChartOfAccount → Type 0
IsClassified a = on_sheet (group_of a) ≡ not (in_earnings (group_of a))

abbrev pub AreClassified : List ChartOfAccount → Type 0
AreClassified = All IsClassified

AreClassified-find :
    (chart : List ChartOfAccount) (id : Uuid) {a : ChartOfAccount}
    → AreClassified chart
    → find (account_has_id id) chart ≡ some a
    → IsClassified a
AreClassified-find [] id c h = ground arith
AreClassified-find (x ∷ chart) id {a} c h = elim (Bool-cases (account_has_id id x)) [
  | inl here ↦ let e : x ≡ a = ground arith in rw (← e) c.0
  | inr there ↦ AreClassified-find chart id {a = a} c.1 (ground arith)
]

abbrev pub joins_group : (Group → Bool) → Option ChartOfAccount → Bool
joins_group t = joins (λ a. t (group_of a))

two_scopes :
    (chart : List ChartOfAccount) (id : Uuid)
    → AreClassified chart
    → let o = find (account_has_id id) chart in
      (joins_group any_group o ≡ joins_group on_sheet o || joins_group in_earnings o)
      × (joins_group on_sheet o && joins_group in_earnings o ≡ false)
two_scopes chart id c = elim (Option-cases (find (account_has_id id) chart)) [
  | inl missing ↦ rw missing (refl, refl)
  | inr (a, found) ↦
      let e : on_sheet (group_of a) ≡ not (in_earnings (group_of a)) =
        AreClassified-find chart id c found in
      rw (found, e)
        (elim (Bool-cases (in_earnings (group_of a))) [
          | inl x ↦ rw x (refl, refl)
          | inr x ↦ rw x (refl, refl)
        ])
]

no_start :
    (as_of : Day) (o : Option AccountingPeriod)
    → joins (in_range none as_of) o ≡ joins (ends_by as_of) o
no_start as_of none = refl
no_start as_of (some p) = ground arith

two_parts :
    (c t x y z : Bool)
    → (z ≡ x || y) × (x && y ≡ false)
    → (c && z && t ≡ (c && x && t) || (c && y && t)) × ((c && x && t) && (c && y && t) ≡ false)
two_parts c t x y z h = ground arith

two_queries :
    (company_id : Uuid) (as_of : Day) (s : Db) (k : GlKey)
    → AreClassified s.chart_of_accounts
    → let x = in_query company_id (ends_by as_of) on_sheet s k in
      let y = in_query company_id (in_range none as_of) in_earnings s k in
      (of_company company_id as_of s k ≡ x || y) × (x && y ≡ false)
two_queries company_id as_of s k c =
    rw (no_start as_of (find (period_has_id k.accounting_period_id) s.accounting_periods)) (
      two_parts (k.company_id == company_id) _ _ _ _
        (two_scopes s.chart_of_accounts k.account_id c))

-- A report's rows over its whole scope.
column-scope :
    (side : Side) (before : AccountRow → AccountRow → Bool) (company_id : Uuid)
    (in_time : AccountingPeriod → Bool) (in_scope : Group → Bool) (s : Db)
    → column side in_scope (query_rows before company_id in_time in_scope s)
      ≡ balance_column side (in_query company_id in_time in_scope s) s.gl_balances
column-scope side before company_id in_time in_scope s =
    column-query_rows side in_scope before company_id in_time in_scope s
    ∙ balance_column-same side _ (in_query company_id in_time in_scope s) s.gl_balances
        λ k. and_again (k.company_id == company_id) _ _

-- Assets less the sum of liabilities and equity.
abbrev pub difference : BalanceSheet → Cents
difference b = b.total_assets -ℤ (b.total_liabilities +ℤ b.total_equity)

difference-sheet_of :
    (rows earned : List AccountRow)
    → All IsDerived rows
    → difference (sheet_of rows (profit_and_loss_of earned))
      ≡ net on_sheet rows +ℤ net in_earnings earned
difference-sheet_of rows earned d =
    let types =
      three_nets (is_type asset) (is_type liability) (is_type equity) rows (λ g. (apart_types g).0)
        (λ g. (apart_types g).1) in
    let categories =
      three_nets (has_category "REVENUE") (has_category "COGS") (has_category "OPEX") earned
        (λ g. (apart_categories g).0) (λ g. (apart_categories g).1) in
    rw
      (
        types,
        categories,
        sum_balance-negated (of_type liability rows),
        sum_balance-negated (of_type equity rows),
        sum_balance-find_many (is_type asset) rows d,
        sum_balance-find_many (is_type liability) rows d,
        sum_balance-find_many (is_type equity) rows d,
      )
      (rw (net_profit_lem earned) (six _ _ _ _ _ _))

net_parts : (a b c d : ℤ) → a -ℤ b +ℤ (c -ℤ d) ≡ a +ℤ c -ℤ (b +ℤ d)
net_parts a b c d = omega int_laws

-- The sheet's two queries together read what the trial balance reads.
pub difference-balance_sheet_at :
    (collates : String → String → Bool) (company_id : Uuid) (as_of : Day) (s : Db)
    → AreClassified s.chart_of_accounts
    → difference (balance_sheet_at collates company_id as_of s)
      ≡ balance_debit (of_company company_id as_of s) s.gl_balances
        -ℤ balance_credit (of_company company_id as_of s) s.gl_balances
difference-balance_sheet_at collates company_id as_of s c =
    let x = in_query company_id (ends_by as_of) on_sheet s in
    let y = in_query company_id (in_range none as_of) in_earnings s in
    let scope : (side : Side)
        → balance_column side (of_company company_id as_of s) s.gl_balances
          ≡ balance_column side x s.gl_balances +ℤ balance_column side y s.gl_balances =
      λ side.
        balance_column-or side x y (of_company company_id as_of s) s.gl_balances
          λ k. two_queries company_id as_of s k c in
    difference-sheet_of _
      (query_rows (by_category collates) company_id (in_range none as_of) in_earnings s)
      (query_rows-IsDerived (by_type collates) company_id (ends_by as_of) on_sheet s)
    ∙ rw
        (
          column-scope debit (by_type collates) company_id (ends_by as_of) on_sheet s,
          column-scope credit (by_type collates) company_id (ends_by as_of) on_sheet s,
          column-scope debit (by_category collates) company_id (in_range none as_of) in_earnings s,
          column-scope credit (by_category collates) company_id (in_range none as_of) in_earnings s,
        )
        (net_parts _ _ _ _ ∙ ap₂ ◌-ℤ◌ (sym (scope debit)) (sym (scope credit)))
