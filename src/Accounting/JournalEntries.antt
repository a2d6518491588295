-- ===== src/Accounting/JournalEntries.antt =====
-- backend/src/accounting/journal-entries/journal-entries.service.ts: the manual entries and their
-- way from draft through submitted and approved to posted.
mod Dto
pub mod Reconcile
pub mod Lifecycle
pub mod Preserve
unfoldable pub use Dto.*
use advanced_accountancy.Prelude.{
  ℕ, suc, String, Bool, not, ◌&&◌, Option, none, some, List, [], ◌∷◌, ◌==◌, ltb, ◌||◌, false, find,
  sum_by, if◌then◌else◌,
}
use advanced_accountancy.Prelude.Int.{pos, ◌-ℤ◌, abs, ltb_ℤ}
use advanced_accountancy.Prelude.Text.{Text, codes}
use advanced_accountancy.Tx.{
  Tx, pure, gets, or_throw, throw_if, ◌>>=◌, ◌>>◌, entry_unbalanced, two_sided_line, no_period,
  not_found, wrong_status, no_open_period,
}
use advanced_accountancy.Schema.{
  Uuid, Day, Amount, AccountingPeriod, is_open, JournalEntry, JournalEntryLine, JournalStatus,
  draft, submitted, approved, posted, status_eq, AuditAction, AuditValue, Db, to_cents, Dimensions,
}
use advanced_accountancy.Audit.{record_audit, audit_row}
use advanced_accountancy.Accounting.Numbering.{next}
use advanced_accountancy.Accounting.Engine
use advanced_accountancy.Accounting.Engine.{
  balance_tolerance, covers, has_id, or_zero, create_entry, update_entry, add_to_balances,
}

abbrev pub debit_of : CreateJournalEntryLineDto → Amount
debit_of l = or_zero l.debit

abbrev pub credit_of : CreateJournalEntryLineDto → Amount
credit_of l = or_zero l.credit

-- `lines.some((l) => debit > 0 && credit > 0)`
unfoldable pub any_two_sided : List CreateJournalEntryLineDto → Bool
any_two_sided [] = false
any_two_sided (l ∷ rest) =
    (ltb_ℤ (pos 0) (debit_of l) && ltb_ℤ (pos 0) (credit_of l)) || any_two_sided rest

abbrev pub manual_line : ℕ → CreateJournalEntryLineDto → JournalEntryLine
manual_line line_no l = record {
  line_no = line_no;
  account_id = l.account_id;
  debit = to_cents (debit_of l);
  credit = to_cents (credit_of l);
  base_currency_amount = to_cents (debit_of l -ℤ credit_of l);
  dimensions = record {
    department_id = l.department_id;
    cost_centre_id = l.cost_centre_id;
    profit_centre_id = l.profit_centre_id;
    project_id = l.project_id;
    customer_id = none;
    supplier_id = none;
    tax_code_id = none;
  };
  description = l.description;
}

-- `dto.lines.map((l, idx) => ...)`, from line number `n`
abbrev pub manual_lines : ℕ → List CreateJournalEntryLineDto → List JournalEntryLine
manual_lines n [] = []
manual_lines n (l ∷ rest) = manual_line n l ∷ manual_lines (suc n) rest

abbrev pub manual_entry : CreateJournalEntryDto → Uuid → Uuid → Text → Uuid → JournalEntry
manual_entry dto user_id period_id entry_number id = record {
  id = id;
  company_id = dto.company_id;
  branch_id = none;
  accounting_period_id = period_id;
  posting_rule_id = none;
  entry_number = entry_number;
  source_module = "MANUAL";
  source_doc_type = none;
  source_doc_id = none;
  entry_date = dto.entry_date;
  currency_code = dto.currency_code;
  exchange_rate = pos 100000000;
  status = draft;
  reversal_of_id = none;
  description = dto.description;
  created_by = some user_id;
  posted_at = none;
  lines = manual_lines 1 dto.lines;
}

unfoldable pub create : Uuid → CreateJournalEntryDto → Tx Db JournalEntry
create user_id dto = do
  let total_debit = sum_by debit_of dto.lines
  let total_credit = sum_by credit_of dto.lines
  throw_if (ltb balance_tolerance (abs (total_debit -ℤ total_credit))) entry_unbalanced
  throw_if (any_two_sided dto.lines) two_sided_line
  covering ←
      gets (λ s. find (covers s.fiscal_years dto.company_id dto.entry_date) s.accounting_periods)
  period ← or_throw covering no_period
  entry_number ← next dto.company_id "JOURNAL_ENTRY" (codes "JE-")
  entry ← create_entry (manual_entry dto user_id period.id entry_number)
  record_audit (
      audit_row dto.company_id user_id AuditAction.create "journal_entry" entry.id none
        (some (AuditValue.entry_totals entry_number total_debit total_credit)))
  pure entry

unfoldable pub transition :
    Uuid → Uuid → JournalStatus → JournalStatus → AuditAction → Tx Db JournalEntry
transition user_id id from to audit_action = do
  found ← gets (λ s. find (has_id id) s.journal_entries)
  entry ← or_throw found not_found
  throw_if (not (status_eq entry.status from)) wrong_status
  updated ← update_entry id (λ e. record e { status = to })
  record_audit (
      audit_row entry.company_id user_id audit_action "journal_entry" id
        (some (AuditValue.status from)) (some (AuditValue.status to)))
  pure updated

unfoldable pub submit : Uuid → Uuid → Tx Db JournalEntry
unfolding transition
submit user_id id = transition user_id id draft submitted AuditAction.edit

unfoldable pub approve : Uuid → Uuid → Tx Db JournalEntry
unfolding transition
approve user_id id = transition user_id id submitted approved AuditAction.approve

abbrev pub has_period_id : Uuid → AccountingPeriod → Bool
has_period_id id p = p.id == id

abbrev pub mark_posted : Day → JournalEntry → JournalEntry
mark_posted now e = record e { status = posted; posted_at = some now }

unfoldable pub post : Uuid → Uuid → Tx Db JournalEntry
post user_id id = do
  found ← gets (λ s. find (has_id id) s.journal_entries)
  entry ← or_throw found not_found
  throw_if (not (status_eq entry.status approved)) wrong_status
  row ← gets (λ s. find (has_period_id entry.accounting_period_id) s.accounting_periods)
  period ← or_throw row no_open_period
  throw_if (not (is_open period.status)) no_open_period
  now ← gets (λ s. s.now)
  updated ← update_entry id (mark_posted now)
  add_to_balances updated updated.lines
  record_audit (audit_row updated.company_id user_id AuditAction.post "journal_entry" id none none)
  pure updated

-- The day of `reversalDate ? new Date(reversalDate) : new Date()`.
abbrev pub reversal_day : Option Day → Day → Day
reversal_day none now = now
reversal_day (some date) now = date

unfoldable pub reverse : Uuid → Uuid → Option Day → Tx Db JournalEntry
reverse user_id id reversal_date = do
  now ← gets (λ s. s.now)
  reversal ← Engine.reverse id (reversal_day reversal_date now) (some user_id)
  record_audit (
      audit_row reversal.company_id user_id AuditAction.reverse "journal_entry" id none
        (some (AuditValue.reversal_entry reversal.id)))
  pure reversal
