-- ===== src/Schema/Banking.antt =====
-- Models BankStatement and BankStatementLine, and of Customer and Supplier the name.
use advanced_accountancy.Prelude.{ℕ, Bool, true, false, Option}
use advanced_accountancy.Prelude.Text.{Text}
use advanced_accountancy.Schema.Units.{Uuid, Day, Cents}

-- A customer or a supplier.
pub record Party : Type 0 where
  pub id : Uuid
  pub name : Text

pub data LineStatus : Type 0 where
  line_unmatched line_suggested line_matched line_reconciled line_ignored : LineStatus

unfoldable pub is_suggested : LineStatus → Bool
is_suggested line_suggested = true
is_suggested _ = false

pub data SuggestedType : Type 0 where
  customer_receipt supplier_payment : SuggestedType

pub record BankStatement : Type 0 where
  pub id : Uuid
  pub company_id : Uuid
  pub bank_account_id : Uuid
  pub statement_date : Day

pub record BankStatementLine : Type 0 where
  pub id : Uuid
  pub bank_statement_id : Uuid
  pub line_no : ℕ
  pub transaction_date : Day
  pub description : Text
  pub amount : Cents  -- above 0 for money in, below 0 for money out
  pub status : LineStatus
  pub suggested_type : Option SuggestedType
  pub suggested_customer_id : Option Uuid
  pub suggested_supplier_id : Option Uuid
  pub suggested_invoice_id : Option Uuid
  pub confidence_score : Option ℕ
  pub matched_journal_entry_id : Option Uuid
  pub reconciled_at : Option Day
