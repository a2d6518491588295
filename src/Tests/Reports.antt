-- ===== src/Tests/Reports.antt =====
-- The reports of the company of Fixture after a sale, with its revenue account in a category.
use advanced_accountancy.Prelude.{
  String, Bool, ◌==◌, ◌≡◌, refl, true, leb, ℕ, some, [], ◌∷◌, All, map, str_eq, if◌then◌else◌,
}
use advanced_accountancy.Prelude.Int.{ℤ, pos, ◌+ℤ◌, neg}
use advanced_accountancy.Schema.{ChartOfAccount, Db}
use advanced_accountancy.Accounting.Engine.Ledger.{Reconciled}
use advanced_accountancy.Accounting.Histories.{start, then_step, posted_event, History-Reconciled}
use advanced_accountancy.Accounting.Reports.{
  type_eq, same_group, add_group, group_rows, insert_row, order_rows, trial_balance_rows,
  balance_sheet_at,
}
use advanced_accountancy.Accounting.Reports.Ledger.{TrialBalanceSums, trial_balance-journal}
use advanced_accountancy.Accounting.Reports.Classified.{AreClassified}
use advanced_accountancy.Accounting.Reports.Sheet.{
  IsBalancedEntry, IsCharted, balance_sheet-balanced,
}
use advanced_accountancy.Tests.Fixture.{company_db, sale}
use advanced_accountancy.Tests.Accounting.{engine_runs, after_sale, post_event_runs}

-- An order of the strings of the example.
abbrev rank : String → ℕ
rank code = if str_eq code "1100" then 1 else if str_eq code "2200" then 2 else 3

abbrev pub code_order : String → String → Bool
code_order a b = leb (rank a) (rank b)

abbrev categorize : ChartOfAccount → ChartOfAccount
categorize a = if a.id == 22 then record a { mis_category = some "REVENUE" } else a

abbrev pub report_db : Db
report_db = record after_sale.1 { chart_of_accounts = map categorize company_db.chart_of_accounts }

unfoldable pub report_runs : Unit {0}
unfolding type_eq same_group add_group group_rows insert_row order_rows engine_runs
report_runs = tt

report_db-Reconciled : Reconciled report_db
report_db-Reconciled =
    History-Reconciled (then_step start (posted_event sale after_sale.0 post_event_runs))
      (λ w. record { debits = refl; credits = refl })

rows_run :
    map {B = String × ℤ}
      (λ r. (r.group.account_code, r.balance))
      (trial_balance_rows code_order 1 738040 report_db)
    ≡ ("1100", pos 11000) ∷ ("2200", neg (pos 1000)) ∷ ("4000", neg (pos 10000)) ∷ []
unfolding report_runs
rows_run = refl

trial_balance-journal_example :
    TrialBalanceSums 1 738040 report_db (trial_balance_rows code_order 1 738040 report_db)
trial_balance-journal_example =
    trial_balance-journal code_order 1 738040 report_db report_db-Reconciled

report_db-AreClassified : AreClassified report_db.chart_of_accounts
unfolding report_runs
report_db-AreClassified = (refl, (refl, (refl, tt)))

entries-IsBalancedEntry : All IsBalancedEntry report_db.journal_entries
unfolding report_runs
entries-IsBalancedEntry = (refl, tt)

entries-IsCharted : All (IsCharted report_db.chart_of_accounts) report_db.journal_entries
unfolding report_runs
entries-IsCharted = ((refl, (refl, (refl, tt))), tt)

balance_sheet-balanced_example :
    let sheet = balance_sheet_at code_order 1 738040 report_db in
    (sheet.total_assets ≡ sheet.total_liabilities +ℤ sheet.total_equity) × (sheet.balanced ≡ true)
balance_sheet-balanced_example =
    balance_sheet-balanced code_order 1 738040 report_db report_db-Reconciled
      report_db-AreClassified entries-IsBalancedEntry entries-IsCharted
