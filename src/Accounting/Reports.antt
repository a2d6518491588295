-- ===== src/Accounting/Reports.antt =====
-- backend/src/accounting/reports/reports.service.ts: the reports that are read off the balances.
-- The order of strings is the database's collation, a parameter: `collates a b` says that `a` does
-- not come after `b`.
mod Rows
pub mod Groups
pub mod Ledger
pub mod Nets
pub mod Classified
pub mod Sheet
unfoldable pub use Rows.*
use advanced_accountancy.Prelude.{
  ℕ, String, ◌==◌, leb, Bool, true, false, not, ◌&&◌, ◌||◌, Option, none, some, List, [], ◌∷◌, ◌++◌,
  find, find_many, sum_by, sort_by, map, str_eq, if◌then◌else◌,
}
use advanced_accountancy.Prelude.Int.{ℤ, pos, ◌+ℤ◌, ◌-ℤ◌, neg, abs}
use advanced_accountancy.Tx.{Tx, gets}
use advanced_accountancy.Schema.{
  Uuid, Day, Cents, ChartOfAccount, AccountType, asset, liability, equity, income, expense,
  AccountingPeriod, JournalEntry, JournalEntryLine, posted, status_eq, GlKey, GlAccountBalance, Db,
}
use advanced_accountancy.Accounting.Engine.Ledger.{Selection}

abbrev pub ends_by : Day → AccountingPeriod → Bool
ends_by as_of p = leb p.end_date as_of

abbrev pub any_group : Group → Bool
any_group g = true

abbrev pub on_sheet : Group → Bool
on_sheet g =
    type_eq g.account_type asset
    || type_eq g.account_type liability
    || type_eq g.account_type equity

abbrev pub has_category : String → Group → Bool
has_category c g = joins (λ m. str_eq m c) g.mis_category

abbrev pub in_earnings : Group → Bool
in_earnings g = has_category "REVENUE" g || has_category "COGS" g || has_category "OPEX" g

-- `fromDate ? AND ap.start_date >= fromDate : `
abbrev pub starts_from : Option Day → AccountingPeriod → Bool
starts_from none p = true
starts_from (some from) p = leb from p.start_date

abbrev pub query_rows :
    (AccountRow → AccountRow → Bool)
    → Uuid
    → (AccountingPeriod → Bool)
    → (Group → Bool)
    → Db
    → List AccountRow
query_rows before company_id in_time in_scope s =
    order_rows before
      (group_rows s.chart_of_accounts (in_query company_id in_time in_scope s) s.gl_balances)

abbrev pub trial_balance_rows : (String → String → Bool) → Uuid → Day → Db → List AccountRow
trial_balance_rows collates company_id as_of s =
    query_rows (by_code collates) company_id (ends_by as_of) any_group s

unfoldable pub trial_balance : (String → String → Bool) → Uuid → Day → Tx Db (List AccountRow)
trial_balance collates company_id as_of = gets (trial_balance_rows collates company_id as_of)

pub record ProfitAndLoss : Type 0 where
  pub revenue : List AccountRow
  pub cogs : List AccountRow
  pub opex : List AccountRow
  pub total_revenue : Cents
  pub total_cogs : Cents
  pub total_opex : Cents
  pub gross_profit : Cents
  pub net_profit : Cents

abbrev pub of_category : String → List AccountRow → List AccountRow
of_category c = find_many (λ r. has_category c r.group)

-- `profitAndLossTotals`, of the rows of its query.
abbrev pub profit_and_loss_of : List AccountRow → ProfitAndLoss
profit_and_loss_of accounts =
    let revenue = of_category "REVENUE" accounts in
    let cogs = of_category "COGS" accounts in
    let opex = of_category "OPEX" accounts in
    let total_revenue = sum_by (λ a. a.credit -ℤ a.debit) revenue in
    let total_cogs = sum_by (λ a. a.debit -ℤ a.credit) cogs in
    let total_opex = sum_by (λ a. a.debit -ℤ a.credit) opex in
    record {
      revenue = revenue;
      cogs = cogs;
      opex = opex;
      total_revenue = total_revenue;
      total_cogs = total_cogs;
      total_opex = total_opex;
      gross_profit = total_revenue -ℤ total_cogs;
      net_profit = total_revenue -ℤ total_cogs -ℤ total_opex;
    }

abbrev pub in_range : Option Day → Day → AccountingPeriod → Bool
in_range from to p = ends_by to p && starts_from from p

abbrev pub earnings : (String → String → Bool) → Uuid → Option Day → Day → Db → ProfitAndLoss
earnings collates company_id from to s =
    profit_and_loss_of
      (query_rows (by_category collates) company_id (in_range from to) in_earnings s)

unfoldable pub profit_and_loss : (String → String → Bool) → Uuid → Day → Day → Tx Db ProfitAndLoss
profit_and_loss collates company_id from to = gets (earnings collates company_id (some from) to)

pub record BalanceSheet : Type 0 where
  pub assets : List AccountRow
  pub liabilities : List AccountRow
  pub equity : List AccountRow
  pub current_year_earnings : Cents
  pub total_assets : Cents
  pub total_liabilities : Cents
  pub total_equity : Cents
  pub balanced : Bool

abbrev pub of_type : AccountType → List AccountRow → List AccountRow
of_type t = find_many (λ r. type_eq r.group.account_type t)

abbrev pub negate_row : AccountRow → AccountRow
negate_row r = record r { balance = neg r.balance }

abbrev pub sum_balance : List AccountRow → Cents
sum_balance = sum_by (λ r. r.balance)

-- `Math.abs(totalAssets - (totalLiabilities + totalEquity)) < 0.01`, in hundredths.
abbrev pub is_balanced : Cents → Cents → Cents → Bool
is_balanced a l e = abs (a -ℤ (l +ℤ e)) == 0

abbrev pub sheet_of : List AccountRow → ProfitAndLoss → BalanceSheet
sheet_of accounts pnl =
    let assets = of_type asset accounts in
    let liabilities = map negate_row (of_type liability accounts) in
    let equity_rows = map negate_row (of_type equity accounts) in
    let total_equity = sum_balance equity_rows +ℤ pnl.net_profit in
    record {
      assets = assets;
      liabilities = liabilities;
      equity = equity_rows;
      current_year_earnings = pnl.net_profit;
      total_assets = sum_balance assets;
      total_liabilities = sum_balance liabilities;
      total_equity = total_equity;
      balanced = is_balanced (sum_balance assets) (sum_balance liabilities) total_equity;
    }

abbrev pub balance_sheet_at : (String → String → Bool) → Uuid → Day → Db → BalanceSheet
balance_sheet_at collates company_id as_of s =
    sheet_of (query_rows (by_type collates) company_id (ends_by as_of) on_sheet s)
      (earnings collates company_id none as_of s)

unfoldable pub balance_sheet : (String → String → Bool) → Uuid → Day → Tx Db BalanceSheet
balance_sheet collates company_id as_of = gets (balance_sheet_at collates company_id as_of)

-- A line with the entry that holds it.
pub record LedgerLine : Type 0 where
  pub entry : JournalEntry
  pub line : JournalEntryLine

abbrev pub lines_of : Uuid → JournalEntry → List JournalEntryLine → List LedgerLine
lines_of account_id e [] = []
lines_of account_id e (l ∷ rest) =
    let later = lines_of account_id e rest in
    if l.account_id == account_id then record { entry = e; line = l } ∷ later else later

abbrev pub in_ledger_range : Uuid → Day → Day → JournalEntry → Bool
in_ledger_range company_id from to e =
    (e.company_id == company_id)
    && status_eq e.status posted
    && leb from e.entry_date
    && leb e.entry_date to

unfoldable pub ledger_lines : Uuid → List JournalEntry → List LedgerLine
ledger_lines account_id [] = []
ledger_lines account_id (e ∷ rest) = lines_of account_id e e.lines ++ ledger_lines account_id rest

-- `generalLedger`, by the date of the entry.
unfoldable pub general_ledger : Uuid → Uuid → Day → Day → Tx Db (List LedgerLine)
general_ledger company_id account_id from to = gets (λ s.
    sort_by (λ l. l.entry.entry_date)
      (ledger_lines account_id (find_many (in_ledger_range company_id from to) s.journal_entries)))
