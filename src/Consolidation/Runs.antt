-- ===== src/Consolidation/Runs.antt =====
-- backend/src/consolidation/consolidation-runs.ts: the trial balances of a group's companies in one
-- currency, with the trade among them eliminated. The order of strings is the database's collation
-- for the trial balances, and `localeCompare` for the summary: both are parameters.
pub mod Loop
pub mod Written
pub mod Final
pub mod Summary
pub mod Elimination
use advanced_accountancy.Prelude.{
  ◌+◌, ◌/◌, String, Bool, true, false, not, ◌&&◌, ◌||◌, Option, none, some, List, [], ◌∷◌, ◌++◌,
  ◌==◌, ltb, opt_eq, str_eq, find, find_many, map, sum_by, length, refl, if◌then◌else◌,
}
use advanced_accountancy.Prelude.Int.{ℤ, pos, negsuc, neg, ◌+ℤ◌, ◌*ℤ◌}
use advanced_accountancy.Tx.{
  Tx, pure, gets, or_throw, modify, throw_if, ◌>>=◌, ◌>>◌, not_found, no_companies,
  no_exchange_rate, already_final, unmatched_transactions,
}
use advanced_accountancy.Schema.{
  Uuid, Day, Cents, Company, ChartOfAccount, ExchangeRate, IntercompanyTransaction, MatchStatus,
  unmatched, matched, match_eq, ConsolidationRun, ConsolidatedLine, AuditAction, AuditValue, Db,
}
use advanced_accountancy.Tables.{Table, find_row, create_row, update_row}
use advanced_accountancy.Audit.{record_audit}
use advanced_accountancy.Accounting.Reports.{AccountRow, opt_str_eq, trial_balance, order_rows}
use advanced_accountancy.Consolidation.Intercompany.{group_row}

pub record CreateConsolidationRunDto : Type 0 where
  pub business_group_id : Uuid
  pub period_label : String
  pub presentation_currency : String
  pub as_of_date : Day

abbrev pub consolidation_runs : Table ConsolidationRun
consolidation_runs = record {
  rows = λ s. s.consolidation_runs;
  set_rows = λ xs s. record s { consolidation_runs = xs };
  id_of = λ r. r.id;
  holds = λ xs s. refl;
  audited = λ logs s. refl;
  same_journal = λ xs s. refl;
  same_balances = λ xs s. refl;
}

abbrev pub in_business_group : Uuid → Company → Bool
in_business_group id c = opt_eq c.business_group_id (some id)

abbrev pub has_status : Uuid → MatchStatus → IntercompanyTransaction → Bool
has_status group_id status t = (t.business_group_id == group_id) && match_eq t.status status

abbrev pub is_intercompany : Uuid → ChartOfAccount → Bool
is_intercompany company_id a =
    (a.company_id == company_id) && opt_str_eq a.control_type (some "INTERCOMPANY")

-- `rateDate: { lte }`, of the company's rates between the two currencies.
abbrev pub is_rate : Uuid → String → String → Day → ExchangeRate → Bool
is_rate company_id from to as_of r =
    (r.company_id == company_id)
    && str_eq r.from_currency from
    && str_eq r.to_currency to
    && not (ltb as_of r.rate_date)

-- `orderBy: { rateDate: 'desc' }`, the first row.
abbrev pub later_rate : ExchangeRate → Option ExchangeRate → ExchangeRate
later_rate r none = r
later_rate r (some q) = if ltb r.rate_date q.rate_date then q else r

unfoldable pub newest_rate : List ExchangeRate → Option ExchangeRate
newest_rate [] = none
newest_rate (r ∷ rates) = some (later_rate r (newest_rate rates))

-- One, in units of 10^-8.
abbrev pub one_to_one : ℤ
one_to_one = pos 100000000

abbrev pub rate_of : ExchangeRate → ℤ
rate_of r = r.rate

-- `resolveRate`
unfoldable pub resolve_rate : Uuid → String → String → Day → Tx Db ℤ
resolve_rate company_id from to as_of = if str_eq from to then pure one_to_one else do
  row ← gets (λ s. newest_rate (find_many (is_rate company_id from to as_of) s.exchange_rates))
  rate ← or_throw row no_exchange_rate
  pure (rate_of rate)

-- What a column of scale 2 stores of hundredths times a rate: a half goes away from zero.
abbrev pub nearest_away : ℤ → ℤ
nearest_away (pos n) = pos ((n + 50000000) / 100000000)
nearest_away (negsuc n) = neg (pos ((n + 1 + 50000000) / 100000000))

unfoldable pub translate : Cents → ℤ → Cents
translate amount rate = nearest_away (amount *ℤ rate)

abbrev pub touches : Uuid → IntercompanyTransaction → Bool
touches company_id t = (t.company_a_id == company_id) || (t.company_b_id == company_id)

-- `matchedTxns.filter(...).reduce((sum, t) => sum - Number(t.amount), 0)`
unfoldable pub elimination_total : Uuid → List IntercompanyTransaction → Cents
elimination_total company_id txns = sum_by (λ t. neg t.amount) (find_many (touches company_id) txns)

abbrev pub is_account_row : Option ChartOfAccount → AccountRow → Bool
is_account_row none row = false
is_account_row (some a) row = str_eq row.group.account_code a.account_code

-- The line of a row.
abbrev pub consolidated_line :
    Uuid → Uuid → ℤ → Option ChartOfAccount → Cents → AccountRow → ConsolidatedLine
consolidated_line run_id company_id rate account elimination row = record {
  consolidation_run_id = run_id;
  company_id = company_id;
  account_code = row.group.account_code;
  account_name = row.group.name;
  mis_category = row.group.mis_category;
  original_amount = row.balance;
  translated_amount = translate row.balance rate;
  elimination_amount = if is_account_row account row then translate elimination rate else pos 0;
}

-- One `create` for each row.
unfoldable pub write_lines : List ConsolidatedLine → Tx Db (Unit {0})
write_lines lines = modify (λ s. record s { consolidated_lines = s.consolidated_lines ++ lines })

abbrev pub new_run : CreateConsolidationRunDto → Uuid → ConsolidationRun
new_run dto id = record {
  id = id;
  business_group_id = dto.business_group_id;
  period_label = dto.period_label;
  presentation_currency = dto.presentation_currency;
  is_final = false;
  finalized_at = none;
}

-- A run with its lines.
pub record RunWithLines : Type 0 where
  pub run : ConsolidationRun
  pub lines : List ConsolidatedLine

abbrev pub of_run : Uuid → ConsolidatedLine → Bool
of_run run_id l = l.consolidation_run_id == run_id

module _ (collates : String → String → Bool) where
  -- The loop over the companies.
  unfoldable pub consolidate :
      CreateConsolidationRunDto
      → Uuid
      → List IntercompanyTransaction
      → List Company
      → Tx Db (Unit {0})
  consolidate dto run_id txns [] = pure tt
  consolidate dto run_id txns (c ∷ companies) = do
    rows ← trial_balance collates c.id dto.as_of_date
    rate ← resolve_rate c.id c.base_currency_code dto.presentation_currency dto.as_of_date
    account ← gets (λ s. find (is_intercompany c.id) s.chart_of_accounts)
    write_lines
        (map (consolidated_line run_id c.id rate account (elimination_total c.id txns)) rows)
    consolidate dto run_id txns companies

  unfoldable pub create : Uuid → CreateConsolidationRunDto → Tx Db RunWithLines
  create user_id dto = do
    companies ← gets (λ s. find_many (in_business_group dto.business_group_id) s.companies)
    throw_if (length companies == 0) no_companies
    run ← create_row consolidation_runs (new_run dto)
    txns ←
        gets (λ s. find_many (has_status dto.business_group_id matched) s.intercompany_transactions)
    consolidate dto run.id txns companies
    record_audit (
        group_row user_id AuditAction.create "consolidation_run" run.id
          (some (AuditValue.group_label dto.business_group_id dto.period_label)))
    lines ← gets (λ s. find_many (of_run run.id) s.consolidated_lines)
    pure (record { run = run; lines = lines })

abbrev pub mark_final : Day → ConsolidationRun → ConsolidationRun
mark_final now r = record r { is_final = true; finalized_at = some now }

unfoldable pub finalize : Uuid → Uuid → Tx Db ConsolidationRun
finalize user_id id = do
  found ← gets (find_row consolidation_runs id)
  run ← or_throw found not_found
  throw_if run.is_final already_final
  open_txns ←
      gets (λ s. find_many (has_status run.business_group_id unmatched) s.intercompany_transactions)
  throw_if (not (length open_txns == 0)) unmatched_transactions
  now ← gets (λ s. s.now)
  updated ← update_row consolidation_runs id (mark_final now)
  record_audit (group_row user_id AuditAction.approve "consolidation_run" id none)
  pure updated

-- A row of the summary.
pub record SummaryRow : Type 0 where
  pub account_code : String
  pub account_name : String
  pub mis_category : Option String
  pub total : Cents

abbrev pub line_amount : ConsolidatedLine → Cents
line_amount l = l.translated_amount +ℤ l.elimination_amount

-- `byAccountCode.get(key)`, in the order of insertion.
unfoldable pub add_line : ConsolidatedLine → List SummaryRow → List SummaryRow
add_line l [] =
    record {
      account_code = l.account_code;
      account_name = l.account_name;
      mis_category = l.mis_category;
      total = line_amount l;
    }
    ∷ []
add_line l (r ∷ rows) =
    if str_eq r.account_code l.account_code
    then record r { total = r.total +ℤ line_amount l } ∷ rows
    else r ∷ add_line l rows

-- The loop over the lines.
unfoldable pub add_lines : List ConsolidatedLine → List SummaryRow → List SummaryRow
add_lines [] rows = rows
add_lines (l ∷ lines) rows = add_lines lines (add_line l rows)

-- `consolidatedSummary`
unfoldable pub consolidated_summary : (String → String → Bool) → Uuid → Tx Db (List SummaryRow)
consolidated_summary locale_before id = do
  found ← gets (find_row consolidation_runs id)
  run ← or_throw found not_found
  lines ← gets (λ s. find_many (of_run run.id) s.consolidated_lines)
  pure (order_rows (λ a b. locale_before a.account_code b.account_code) (add_lines lines []))
