-- ===== src/Sales/CreditNotes.antt =====
-- backend/src/sales/credit-notes.ts: what a customer owes less.
pub mod Settled
pub mod Success
use advanced_accountancy.Prelude.{not, Option, none, some, [], ◌∷◌, ◌++◌, find, refl}
use advanced_accountancy.Prelude.Text.{Text, codes}
use advanced_accountancy.Tx.{
  Tx, pure, gets, or_throw, throw_if, ◌>>=◌, ◌>>◌, not_found, wrong_status, record_missing,
}
use advanced_accountancy.Schema.{
  Uuid, Day, Amount, Cents, CreditNote, doc_draft, doc_posted, doc_eq, Company, company_has_id,
  no_dimensions, AuditAction, AuditValue, Db, from_cents, to_cents,
}
use advanced_accountancy.Tables.{Table, find_row, create_row, update_row}
use advanced_accountancy.Audit.{record_audit, audit_row}
use advanced_accountancy.Accounting.Numbering.{next}
use advanced_accountancy.Accounting.Engine.{PostEventParams, post_event}
use advanced_accountancy.Schema.{SalesInvoice}
use advanced_accountancy.Sales.Receipts.{pay}

abbrev pub sales_invoices : Table SalesInvoice
sales_invoices = record {
  rows = λ s. s.sales_invoices;
  set_rows = λ xs s. record s { sales_invoices = xs };
  id_of = λ i. i.id;
  holds = λ xs s. refl;
  audited = λ logs s. refl;
  same_journal = λ xs s. refl;
  same_balances = λ xs s. refl;
}

pub record CreateCreditNoteDto : Type 0 where
  pub company_id : Uuid
  pub customer_id : Uuid
  pub sales_invoice_id : Option Uuid
  pub credit_note_date : Day
  pub amount : Amount

abbrev pub credit_notes : Table CreditNote
credit_notes = record {
  rows = λ s. s.credit_notes;
  set_rows = λ xs s. record s { credit_notes = xs };
  id_of = λ n. n.id;
  holds = λ xs s. refl;
  audited = λ logs s. refl;
  same_journal = λ xs s. refl;
  same_balances = λ xs s. refl;
}

abbrev pub new_note : CreateCreditNoteDto → Text → Uuid → CreditNote
new_note dto credit_note_number id = record {
  id = id;
  company_id = dto.company_id;
  customer_id = dto.customer_id;
  sales_invoice_id = dto.sales_invoice_id;
  credit_note_number = credit_note_number;
  credit_note_date = dto.credit_note_date;
  amount = to_cents dto.amount;
  status = doc_draft;
  journal_entry_id = none;
}

unfoldable pub create : Uuid → CreateCreditNoteDto → Tx Db CreditNote
create user_id dto = do
  credit_note_number ← next dto.company_id "CREDIT_NOTE" (codes "CN-")
  note ← create_row credit_notes (new_note dto credit_note_number)
  record_audit (
      audit_row dto.company_id user_id AuditAction.create "credit_note" note.id none (
        some (
          AuditValue.note dto.company_id dto.customer_id dto.sales_invoice_id dto.credit_note_date
            dto.amount)))
  pure note

-- The event of a note.
abbrev pub note_event : Uuid → CreditNote → Company → PostEventParams
note_event user_id n company = record {
  company_id = n.company_id;
  branch_id = none;
  event_type = "CREDIT_NOTE_POSTED";
  entry_date = n.credit_note_date;
  currency_code = company.base_currency_code;
  exchange_rate = none;
  source_module = "SALES";
  source_doc_type = "credit_note";
  source_doc_id = n.id;
  description = some (codes "Credit Note " ++ n.credit_note_number);
  amounts = ("amount", from_cents n.amount) ∷ [];
  account_overrides = [];
  dimensions = record no_dimensions { customer_id = some n.customer_id };
  created_by = some user_id;
}

-- `if (n.sales_invoice_id)`
unfoldable pub settle : Option Uuid → Cents → Tx Db (Unit {0})
settle none amount = pure tt
settle (some invoice_id) amount = do
  paid ← update_row sales_invoices invoice_id (pay amount)
  pure tt

abbrev pub mark_posted : Uuid → CreditNote → CreditNote
mark_posted entry_id n = record n { status = doc_posted; journal_entry_id = some entry_id }

unfoldable pub post : Uuid → Uuid → Tx Db CreditNote
post user_id id = do
  found ← gets (find_row credit_notes id)
  note ← or_throw found not_found
  throw_if (not (doc_eq note.status doc_draft)) wrong_status
  row ← gets (λ s. find (company_has_id note.company_id) s.companies)
  company ← or_throw row record_missing
  entry ← post_event (note_event user_id note company)
  settle note.sales_invoice_id note.amount
  posted ← update_row credit_notes id (mark_posted entry.id)
  record_audit (
      audit_row note.company_id user_id AuditAction.post "credit_note" id none
        (some (AuditValue.journal_entry entry.id)))
  pure posted
