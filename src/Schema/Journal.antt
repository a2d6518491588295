-- ===== src/Schema/Journal.antt =====
-- Models JournalEntry, JournalEntryLine and GlAccountBalance.
use advanced_accountancy.Prelude.{
  ℕ, String, ◌≡◌, Bool, true, false, ◌&&◌, Option, none, List, arith, opt_eq, opt_eq→≡, ◌==◌, eq→≡,
}
use advanced_accountancy.Prelude.Int.{ℤ}
use advanced_accountancy.Prelude.Text.{Text}
use advanced_accountancy.Schema.Units.{Uuid, Day, Cents}

pub data JournalStatus : Type 0 where
  draft submitted approved posted cancelled reversed : JournalStatus

unfoldable pub status_eq : JournalStatus → JournalStatus → Bool
status_eq draft draft = true
status_eq submitted submitted = true
status_eq approved approved = true
status_eq posted posted = true
status_eq cancelled cancelled = true
status_eq reversed reversed = true
status_eq _ _ = false

-- The optional columns of a line, `none` for a null.
pub record Dimensions : Type 0 where
  pub department_id : Option Uuid
  pub cost_centre_id : Option Uuid
  pub profit_centre_id : Option Uuid
  pub project_id : Option Uuid
  pub customer_id : Option Uuid
  pub supplier_id : Option Uuid
  pub tax_code_id : Option Uuid

abbrev pub no_dimensions : Dimensions
no_dimensions = record {
  department_id = none;
  cost_centre_id = none;
  profit_centre_id = none;
  project_id = none;
  customer_id = none;
  supplier_id = none;
  tax_code_id = none;
}

pub record JournalEntryLine : Type 0 where
  pub line_no : ℕ
  pub account_id : Uuid
  pub debit : Cents
  pub credit : Cents
  pub base_currency_amount : Cents
  pub dimensions : Dimensions
  pub description : Option Text

pub record JournalEntry : Type 0 where
  pub id : Uuid
  pub company_id : Uuid
  pub branch_id : Option Uuid
  pub accounting_period_id : Uuid
  pub posting_rule_id : Option Uuid
  pub entry_number : Text
  pub source_module : String
  pub source_doc_type : Option String
  pub source_doc_id : Option Uuid
  pub entry_date : Day
  pub currency_code : String
  pub exchange_rate : ℤ  -- in units of 10^-8
  pub status : JournalStatus
  pub reversal_of_id : Option Uuid
  pub description : Option Text
  pub created_by : Option Uuid
  pub posted_at : Option Day
  pub lines : List JournalEntryLine

-- The unique key `gl_balance_key`; `none` is the empty string that stands for no dimension.
pub record GlKey : Type 0 where
  pub company_id : Uuid
  pub accounting_period_id : Uuid
  pub account_id : Uuid
  pub branch_id : Option Uuid
  pub department_id : Option Uuid
  pub cost_centre_id : Option Uuid
  pub profit_centre_id : Option Uuid

unfoldable pub key_eq : GlKey → GlKey → Bool
key_eq a b =
    (a.company_id == b.company_id)
    && (a.accounting_period_id == b.accounting_period_id)
    && (a.account_id == b.account_id)
    && opt_eq a.branch_id b.branch_id
    && opt_eq a.department_id b.department_id
    && opt_eq a.cost_centre_id b.cost_centre_id
    && opt_eq a.profit_centre_id b.profit_centre_id

pub record GlAccountBalance : Type 0 where
  pub key : GlKey
  pub debit_total : Cents
  pub credit_total : Cents

-- Two keys that compare equal are equal.
pub key_eq→≡ : (a b : GlKey) → key_eq a b ≡ true → a ≡ b
unfolding key_eq
key_eq→≡ a b h = ground (
  arith,
  eq→≡ a.company_id b.company_id,
  eq→≡ a.accounting_period_id b.accounting_period_id,
  eq→≡ a.account_id b.account_id,
  opt_eq→≡ a.branch_id b.branch_id,
  opt_eq→≡ a.department_id b.department_id,
  opt_eq→≡ a.cost_centre_id b.cost_centre_id,
  opt_eq→≡ a.profit_centre_id b.profit_centre_id,
)
