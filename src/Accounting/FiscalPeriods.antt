-- ===== src/Accounting/FiscalPeriods.antt =====
-- backend/src/accounting/fiscal-periods/fiscal-periods.service.ts, and the same loop in
-- backend/src/accounting/company-provisioning.service.ts: a fiscal year of twelve monthly periods.
pub mod Covering
pub mod Tiling
use advanced_accountancy.Prelude.{
  ℕ, zero, suc, ◌+◌, Bool, Option, none, some, List, [], ◌∷◌, ◌++◌, ◌==◌, ltb, find, modify_first,
  if◌then◌else◌,
}
use advanced_accountancy.Tx.{Tx, pure, gets, or_throw, modify, ◌>>=◌, ◌>>◌, not_found}
use advanced_accountancy.Schema.{
  Uuid, Day, FiscalYear, AccountingPeriod, PeriodStatus, open_period, is_open, AuditAction,
  AuditValue, Db, fresh,
}
use advanced_accountancy.Audit.{record_audit, audit_row}
use advanced_accountancy.Accounting.Calendar.{utc, get_utc_full_year}

-- The period of a month, counted from 0; its last day is day 0 of the next month.
abbrev pub month_period : ℕ → Uuid → ℕ → Uuid → AccountingPeriod
month_period year fiscal_year_id month id = record {
  id = id;
  fiscal_year_id = fiscal_year_id;
  period_no = suc month;
  start_date = utc year month 1;
  end_date = utc year (suc month) 0;
  status = open_period;
}

-- The loop over the months: the rounds left, and the next month.
unfoldable pub create_periods : ℕ → Uuid → ℕ → ℕ → Tx Db (Unit {0})
create_periods year fiscal_year_id zero month = pure tt
create_periods year fiscal_year_id (suc rounds) month = do
  id ← fresh
  modify (λ s. record s {
    accounting_periods = s.accounting_periods ++ month_period year fiscal_year_id month id ∷ [];
  })
  create_periods year fiscal_year_id rounds (suc month)

unfoldable pub create_fiscal_year : Uuid → ℕ → Tx Db FiscalYear
create_fiscal_year company_id year = do
  id ← fresh
  let fiscal_year : FiscalYear = record {
    id = id;
    company_id = company_id;
    year = year;
    start_date = utc year 0 1;
    end_date = utc year 11 31;
  }
  modify (λ s. record s { fiscal_years = s.fiscal_years ++ fiscal_year ∷ [] })
  create_periods year id 12 0
  pure fiscal_year

unfoldable pub provision_current_fiscal_year : Uuid → Tx Db FiscalYear
provision_current_fiscal_year company_id = do
  now ← gets (λ s. s.now)
  create_fiscal_year company_id (get_utc_full_year now)

abbrev later_year : FiscalYear → Option FiscalYear → Option FiscalYear
later_year y none = some y
later_year y (some z) = if ltb y.start_date z.start_date then some z else some y

-- `findFirst` by company, the latest start first.
unfoldable pub latest_year : Uuid → List FiscalYear → Option FiscalYear
latest_year company_id [] = none
latest_year company_id (y ∷ rest) =
    let latest = latest_year company_id rest in
    if y.company_id == company_id then later_year y latest else latest

unfoldable pub next_year : Option FiscalYear → Day → ℕ
next_year none now = get_utc_full_year now
next_year (some latest) now = suc (get_utc_full_year latest.start_date)

unfoldable pub create_next_fiscal_year : Uuid → Uuid → Tx Db FiscalYear
create_next_fiscal_year user_id company_id = do
  latest ← gets (λ s. latest_year company_id s.fiscal_years)
  now ← gets (λ s. s.now)
  fiscal_year ← create_fiscal_year company_id (next_year latest now)
  record_audit (
      audit_row company_id user_id AuditAction.create "fiscal_year" fiscal_year.id none
        (some (AuditValue.year_name fiscal_year.year)))
  pure fiscal_year

abbrev period_has_id : Uuid → AccountingPeriod → Bool
period_has_id id p = p.id == id

unfoldable pub set_period_status : Uuid → Uuid → PeriodStatus → Tx Db AccountingPeriod
set_period_status user_id period_id status = do
  row ← gets (λ s. find (period_has_id period_id) s.accounting_periods)
  before ← or_throw row not_found
  modify (λ s. record s {
    accounting_periods =
        modify_first (period_has_id period_id) (λ p. record p { status = status })
          s.accounting_periods;
  })
  record_audit (record {
    company_id = none;
    user_id = some user_id;
    action = if is_open status then AuditAction.config_change else AuditAction.post;
    entity_type = "accounting_period";
    entity_id = some period_id;
    old_value = some (AuditValue.period_status before.status);
    new_value = some (AuditValue.period_status status);
  })
  pure (record before { status = status })
