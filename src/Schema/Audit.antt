-- ===== src/Schema/Audit.antt =====
-- Model AuditLog, with the JSON of its two value columns by the shapes that the services write.
use advanced_accountancy.Prelude.{ℕ, String, Option}
use advanced_accountancy.Prelude.Text.{Text}
use advanced_accountancy.Schema.Units.{Uuid, Day, Amount, Cents}
use advanced_accountancy.Schema.Setup.{PeriodStatus}
use advanced_accountancy.Schema.Journal.{JournalStatus}
use advanced_accountancy.Schema.Sales.{DocStatus}
use advanced_accountancy.Schema.Consolidation.{MatchStatus}
use advanced_accountancy.Schema.Banking.{LineStatus}

pub data AuditAction : Type 0 where
  create edit approve post cancel reverse delete export login permission_change config_change :
      AuditAction

pub data AuditValue : Type 0 where
  status : JournalStatus → AuditValue
  doc_status : DocStatus → AuditValue
  period_status : PeriodStatus → AuditValue
  entry_totals : Text → Amount → Amount → AuditValue
  number_total : Text → Cents → AuditValue
  number_amount : Text → Amount → AuditValue
  -- The whole of `CreateCreditNoteDto` or `CreateDebitNoteDto`.
  note : Uuid → Uuid → Option Uuid → Day → Amount → AuditValue
  journal_entry : Uuid → AuditValue
  group_label : Uuid → String → AuditValue
  intercompany_dto : Uuid → Uuid → Uuid → Uuid → Amount → String → AuditValue
  line_count : ℕ → AuditValue
  line_status : LineStatus → AuditValue
  match_status : MatchStatus → AuditValue
  reversal_entry : Uuid → AuditValue
  year_name : ℕ → AuditValue
  number : Text → AuditValue
  asset_monthly : String → Cents → AuditValue
  posted_count : ℕ → Day → AuditValue
  entry_cost : Uuid → Amount → AuditValue
  count_result : Option Uuid → Amount → Amount → AuditValue
  run_totals : Text → Cents → Cents → ℕ → AuditValue

pub record AuditLog : Type 0 where
  pub company_id : Option Uuid
  pub user_id : Option Uuid
  pub action : AuditAction
  pub entity_type : String
  pub entity_id : Option Uuid
  pub old_value : Option AuditValue
  pub new_value : Option AuditValue
