-- ===== src/Accounting/JournalEntries/Dto.antt =====
-- backend/src/accounting/journal-entries/journal-entries.dto.ts; validation leaves no negative
-- amount.
use advanced_accountancy.Prelude.{String, Option, List}
use advanced_accountancy.Prelude.Text.{Text}
use advanced_accountancy.Schema.{Uuid, Day, Amount}

pub record CreateJournalEntryLineDto : Type 0 where
  pub account_id : Uuid
  pub debit : Option Amount
  pub credit : Option Amount
  pub description : Option Text
  pub department_id : Option Uuid
  pub cost_centre_id : Option Uuid
  pub profit_centre_id : Option Uuid
  pub project_id : Option Uuid

pub record CreateJournalEntryDto : Type 0 where
  pub company_id : Uuid
  pub entry_date : Day
  pub currency_code : String
  pub description : Option Text
  pub lines : List CreateJournalEntryLineDto
