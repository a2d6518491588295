-- ===== src/Accounting/Reports/Sheet.antt =====
-- backend/src/accounting/reports/reports.service.ts: the balance sheet balances when every account
-- is on the sheet or in the earnings, and the journal's entries do.
use mathlib.Core.Path.{ap₂}
use advanced_accountancy.Prelude.{
  ◌≡◌, refl, sym, ap, ◌∙◌, Bool, true, false, ◌&&◌, List, [], ◌∷◌, arith, find, sum_by, All, String,
  ◌==◌,
}
use advanced_accountancy.Prelude.Int.{
  ℤ, pos, pos_part, neg_part, abs, ◌+ℤ◌, ◌-ℤ◌, int_laws, eq_of_parts,
}
use advanced_accountancy.Schema.{
  Uuid, Day, Cents, ChartOfAccount, JournalEntry, JournalEntryLine, Db,
}
use advanced_accountancy.Accounting.Engine.{gl_key}
use advanced_accountancy.Accounting.Engine.Ledger.{
  picked, in_ledger, journal_debit, journal_credit, Reconciled,
}
use advanced_accountancy.Accounting.Engine.Balance.{entry_debits, entry_credits}
use advanced_accountancy.Accounting.Reports.{
  account_has_id, period_has_id, joins, ends_by, any_group, balance_sheet_at,
}
use advanced_accountancy.Accounting.Reports.Ledger.{of_company}
use advanced_accountancy.Accounting.Reports.Classified.{
  AreClassified, difference, joins_group, difference-balance_sheet_at,
}

-- An entry that stands in the ledger has equal totals, and its lines name accounts of the chart.
abbrev pub IsBalancedEntry : JournalEntry → Type 0
IsBalancedEntry e =
    picked (in_ledger e.status) (entry_debits e) ≡ picked (in_ledger e.status) (entry_credits e)

abbrev pub IsChartedLine : List ChartOfAccount → JournalEntryLine → Type 0
IsChartedLine chart l = joins_group any_group (find (account_has_id l.account_id) chart) ≡ true

abbrev pub IsCharted : List ChartOfAccount → JournalEntry → Type 0
IsCharted chart e = All (IsChartedLine chart) e.lines

abbrev counts : Uuid → Day → Db → JournalEntry → Bool
counts company_id as_of s e =
    (e.company_id == company_id)
    && joins (ends_by as_of) (find (period_has_id e.accounting_period_id) s.accounting_periods)

counts_line : (c x t : Bool) → x ≡ true → c && x && t ≡ c && t
counts_line c x t h = ground arith

pick_add : (x : Bool) (a s : ℤ) → picked x a +ℤ picked x s ≡ picked x (a +ℤ s)
pick_add true a s = refl
pick_add false a s = omega int_laws

no_lines : (x : Bool) → pos 0 ≡ picked x (pos 0)
no_lines x = ground arith

module _ (company_id : Uuid) (as_of : Day) (s : Db) (e : JournalEntry) where
  lines_of_entry :
      (f : JournalEntryLine → Cents) (ls : List JournalEntryLine)
      → All (IsChartedLine s.chart_of_accounts) ls
      → sum_by (λ l. picked (of_company company_id as_of s (gl_key e l)) (f l)) ls
        ≡ picked (counts company_id as_of s e) (sum_by f ls)
  lines_of_entry f [] c = no_lines (counts company_id as_of s e)
  lines_of_entry f (l ∷ ls) c =
      rw
        (
          counts_line (e.company_id == company_id) _
              (joins (ends_by as_of)
                (find (period_has_id e.accounting_period_id) s.accounting_periods))
              c.0,
          lines_of_entry f ls c.1,
        )
        (pick_add (counts company_id as_of s e) (f l) (sum_by f ls))

swap_picks :
    (x y : Bool) (a b : ℤ) → picked x a ≡ picked x b → picked x (picked y a) ≡ picked x (picked y b)
swap_picks true y a b h = ap (picked y) h
swap_picks false y a b h = refl

balanced_journal :
    (company_id : Uuid) (as_of : Day) (s : Db) (es : List JournalEntry)
    → All IsBalancedEntry es
    → All (IsCharted s.chart_of_accounts) es
    → journal_debit (of_company company_id as_of s) es
      ≡ journal_credit (of_company company_id as_of s) es
balanced_journal company_id as_of s [] b c = refl
balanced_journal company_id as_of s (e ∷ es) b c =
    ap₂ ◌+ℤ◌
      (rw
        (
          lines_of_entry company_id as_of s e (λ l. l.debit) e.lines c.0,
          lines_of_entry company_id as_of s e (λ l. l.credit) e.lines c.0,
        )
        (swap_picks (in_ledger e.status) (counts company_id as_of s e) (entry_debits e)
          (entry_credits e) b.0))
      (balanced_journal company_id as_of s es b.1 c.1)

minus_self : (x y : ℤ) → x ≡ y → x -ℤ y ≡ pos 0
minus_self x y h = rw h (omega int_laws)

eq_of_difference : (x y : ℤ) → x -ℤ y ≡ pos 0 → x ≡ y
eq_of_difference x y h = eq_of_parts x y (omega (int_laws, ap pos_part h, ap neg_part h))

zero_difference : (d : ℤ) → d ≡ pos 0 → (abs d == 0) ≡ true
unfolding abs
zero_difference d h = rw h refl

-- Where the balance rows are reconciled with the journal, each account has a balance sheet type
-- just when its category is none of REVENUE, COGS and OPEX, each entry that is posted or
-- reversed has equal totals and the lines name accounts of the chart, the balance sheet of every
-- company and date has its assets equal to its liabilities and equity, the earnings included,
-- and says that it is balanced.
pub balance_sheet-balanced :
    (collates : String → String → Bool) (company_id : Uuid) (as_of : Day) (s : Db)
    → Reconciled s
    → AreClassified s.chart_of_accounts
    → All IsBalancedEntry s.journal_entries
    → All (IsCharted s.chart_of_accounts) s.journal_entries
    → let sheet = balance_sheet_at collates company_id as_of s in
      (sheet.total_assets ≡ sheet.total_liabilities +ℤ sheet.total_equity) × (sheet.balanced ≡ true)
balance_sheet-balanced collates company_id as_of s rec classified balanced charted =
    let sheet = balance_sheet_at collates company_id as_of s in
    let none_left : difference sheet ≡ pos 0 =
      difference-balance_sheet_at collates company_id as_of s classified
      ∙ minus_self _ _ (
          (rec (of_company company_id as_of s)).debits
          ∙ balanced_journal company_id as_of s s.journal_entries balanced charted
          ∙ sym (rec (of_company company_id as_of s)).credits) in
    (
      eq_of_difference sheet.total_assets (sheet.total_liabilities +ℤ sheet.total_equity) none_left,
      zero_difference (difference sheet) none_left,
    )
