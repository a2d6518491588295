-- ===== src/Accounting/Engine/Params.antt =====
-- `PostEventParams` of accounting-engine.service.ts. The tenant is that of the transaction.
use advanced_accountancy.Prelude.{ℕ, String, Option, List}
use advanced_accountancy.Prelude.Int.{ℤ}
use advanced_accountancy.Prelude.Text.{Text}
use advanced_accountancy.Schema.{Uuid, Day, Amount, Dimensions}

pub record PostEventParams : Type 0 where
  pub company_id : Uuid
  pub branch_id : Option Uuid
  pub event_type : String
  pub entry_date : Day
  pub currency_code : String
  pub exchange_rate : Option ℤ
  pub source_module : String
  pub source_doc_type : String
  pub source_doc_id : Uuid
  pub description : Option Text
  pub amounts : List (String × Amount)
  pub account_overrides : List (String × Uuid)
  pub dimensions : Dimensions
  pub created_by : Option Uuid

-- A line as the engine computes it, before a column rounds it.
pub record LineInput : Type 0 where
  pub line_no : ℕ
  pub account_id : Uuid
  pub debit : Amount
  pub credit : Amount
