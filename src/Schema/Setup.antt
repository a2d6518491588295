-- ===== src/Schema/Setup.antt =====
-- What a company is configured with: models ChartOfAccount, PostingRule, PostingRuleLine,
-- FiscalYear, AccountingPeriod, DocumentNumberSequence, TaxRate, BankAccount and Company.
use advanced_accountancy.Prelude.{ℕ, String, Bool, true, false, Option, List, ◌==◌}
use advanced_accountancy.Prelude.Int.{ℤ}
use advanced_accountancy.Prelude.Text.{Text}
use advanced_accountancy.Schema.Units.{Uuid, Day}

pub data AccountType : Type 0 where
  asset liability equity income expense : AccountType

pub record ChartOfAccount : Type 0 where
  pub id : Uuid
  pub company_id : Uuid
  pub account_code : String
  pub name : String
  pub account_type : AccountType
  pub control_type : Option String
  pub mis_category : Option String
  pub currency_code : Option String
  pub is_active : Bool

pub data Side : Type 0 where
  debit credit : Side

pub record PostingRuleLine : Type 0 where
  pub line_no : ℕ
  pub side : Side
  pub account_resolver : String
  pub amount_source : String

pub record PostingRule : Type 0 where
  pub id : Uuid
  pub company_id : Uuid
  pub event_type : String
  pub is_active : Bool
  pub lines : List PostingRuleLine

pub record FiscalYear : Type 0 where
  pub id : Uuid
  pub company_id : Uuid
  pub year : ℕ  -- the name is `FY${year}`
  pub start_date : Day
  pub end_date : Day

pub data PeriodStatus : Type 0 where
  open_period closed locked : PeriodStatus

unfoldable pub is_open : PeriodStatus → Bool
is_open open_period = true
is_open _ = false

pub record AccountingPeriod : Type 0 where
  pub id : Uuid
  pub fiscal_year_id : Uuid
  pub period_no : ℕ
  pub start_date : Day
  pub end_date : Day
  pub status : PeriodStatus

pub record DocumentNumberSequence : Type 0 where
  pub id : Uuid
  pub company_id : Uuid
  pub branch_id : Option Uuid
  pub doc_type : String
  pub prefix : Text
  pub next_number : ℕ

-- The rate in ten-thousandths of a percent.
pub record TaxRate : Type 0 where
  pub tax_code_id : Uuid
  pub rate_percent : ℤ
  pub effective_from : Day
  pub effective_to : Option Day

pub record BankAccount : Type 0 where
  pub id : Uuid
  pub company_id : Uuid
  pub currency_code : String
  pub gl_account_id : Uuid

pub record Company : Type 0 where
  pub id : Uuid
  pub business_group_id : Option Uuid
  pub base_currency_code : String

abbrev pub company_has_id : Uuid → Company → Bool
company_has_id id c = c.id == id
