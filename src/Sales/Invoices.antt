-- ===== src/Sales/Invoices.antt =====
-- backend/src/sales/sales-invoices.ts: an invoice from draft to posted, and its event.
pub mod Totals
pub mod Posting
pub mod Success
use advanced_accountancy.Prelude.{
  String, Bool, not, Option, none, some, List, [], ◌∷◌, ◌++◌, ◌==◌, find, modify_first,
}
use advanced_accountancy.Prelude.Int.{pos, ◌+ℤ◌}
use advanced_accountancy.Prelude.Text.{Text, codes}
use advanced_accountancy.Tx.{
  Tx, pure, gets, or_throw, modify, throw_if, ◌>>=◌, ◌>>◌, not_found, wrong_status, record_missing,
}
use advanced_accountancy.Schema.{
  Uuid, Day, Amount, SalesInvoice, SalesInvoiceLine, DocStatus, doc_draft, doc_submitted,
  doc_approved, doc_posted, doc_eq, Dimensions, no_dimensions, AuditAction, AuditValue, Db, fresh,
  from_cents,
}
use advanced_accountancy.Audit.{record_audit, audit_row}
use advanced_accountancy.Accounting.Numbering.{next}
use advanced_accountancy.Accounting.Engine.{PostEventParams, post_event}
use advanced_accountancy.Sales.Pricing.{SalesInvoiceLineDto, Priced, price_lines, invoice_shape}

pub record CreateSalesInvoiceDto : Type 0 where
  pub company_id : Uuid
  pub customer_id : Uuid
  pub sales_order_id : Option Uuid
  pub invoice_date : Day
  pub due_date : Day
  pub currency_code : String
  pub lines : List SalesInvoiceLineDto

abbrev pub invoice_has_id : Uuid → SalesInvoice → Bool
invoice_has_id id i = i.id == id

abbrev pub new_invoice :
    CreateSalesInvoiceDto → Priced SalesInvoiceLine → Text → Uuid → SalesInvoice
new_invoice dto priced invoice_number id = record {
  id = id;
  company_id = dto.company_id;
  customer_id = dto.customer_id;
  sales_order_id = dto.sales_order_id;
  invoice_number = invoice_number;
  invoice_date = dto.invoice_date;
  due_date = dto.due_date;
  currency_code = dto.currency_code;
  subtotal = priced.subtotal;
  tax_amount = priced.tax_amount;
  total = priced.subtotal +ℤ priced.tax_amount;
  amount_paid = pos 0;
  status = doc_draft;
  journal_entry_id = none;
  posted_at = none;
  lines = priced.lines;
}

-- `salesInvoice.create`
unfoldable pub create_invoice : (Uuid → SalesInvoice) → Tx Db SalesInvoice
create_invoice make = do
  id ← fresh
  modify (λ s. record s { sales_invoices = s.sales_invoices ++ make id ∷ [] })
  pure (make id)

-- `salesInvoice.update({ where: { id } })`, which throws where there is no row.
unfoldable pub update_invoice : Uuid → (SalesInvoice → SalesInvoice) → Tx Db SalesInvoice
update_invoice id change = do
  row ← gets (λ s. find (invoice_has_id id) s.sales_invoices)
  before ← or_throw row record_missing
  modify
      (λ s. record s { sales_invoices = modify_first (invoice_has_id id) change s.sales_invoices })
  pure (change before)

unfoldable pub create : Uuid → CreateSalesInvoiceDto → Tx Db SalesInvoice
create user_id dto = do
  priced ← price_lines invoice_shape dto.invoice_date 1 (pos 0) (pos 0) dto.lines
  invoice_number ← next dto.company_id "SALES_INVOICE" (codes "INV-")
  invoice ← create_invoice (new_invoice dto priced invoice_number)
  record_audit (
      audit_row dto.company_id user_id AuditAction.create "sales_invoice" invoice.id none
        (some (AuditValue.number_total invoice_number invoice.total)))
  pure invoice

abbrev pub set_status : DocStatus → SalesInvoice → SalesInvoice
set_status to i = record i { status = to }

unfoldable pub transition : Uuid → Uuid → DocStatus → DocStatus → Tx Db SalesInvoice
transition user_id id from to = do
  found ← gets (λ s. find (invoice_has_id id) s.sales_invoices)
  invoice ← or_throw found not_found
  throw_if (not (doc_eq invoice.status from)) wrong_status
  updated ← update_invoice id (set_status to)
  record_audit (
      audit_row invoice.company_id user_id AuditAction.edit "sales_invoice" id
        (some (AuditValue.doc_status from)) (some (AuditValue.doc_status to)))
  pure updated

unfoldable pub submit : Uuid → Uuid → Tx Db SalesInvoice
unfolding transition
submit user_id id = transition user_id id doc_draft doc_submitted

unfoldable pub approve : Uuid → Uuid → Tx Db SalesInvoice
unfolding transition
approve user_id id = transition user_id id doc_submitted doc_approved

abbrev pub invoice_amounts : SalesInvoice → List (String × Amount)
invoice_amounts i =
    ("subtotal", from_cents i.subtotal)
    ∷ ("taxAmount", from_cents i.tax_amount)
    ∷ ("total", from_cents i.total)
    ∷ []

-- The event of an invoice.
abbrev pub invoice_event : Uuid → SalesInvoice → PostEventParams
invoice_event user_id i = record {
  company_id = i.company_id;
  branch_id = none;
  event_type = "SALES_INVOICE_POSTED";
  entry_date = i.invoice_date;
  currency_code = i.currency_code;
  exchange_rate = none;
  source_module = "SALES";
  source_doc_type = "sales_invoice";
  source_doc_id = i.id;
  description = some (codes "Sales Invoice " ++ i.invoice_number);
  amounts = invoice_amounts i;
  account_overrides = [];
  dimensions = record no_dimensions { customer_id = some i.customer_id };
  created_by = some user_id;
}

abbrev pub mark_posted : Uuid → Day → SalesInvoice → SalesInvoice
mark_posted entry_id now i = record i {
  status = doc_posted;
  journal_entry_id = some entry_id;
  posted_at = some now;
}

unfoldable pub post : Uuid → Uuid → Tx Db SalesInvoice
post user_id id = do
  found ← gets (λ s. find (invoice_has_id id) s.sales_invoices)
  invoice ← or_throw found not_found
  throw_if (not (doc_eq invoice.status doc_approved)) wrong_status
  entry ← post_event (invoice_event user_id invoice)
  now ← gets (λ s. s.now)
  updated ← update_invoice id (mark_posted entry.id now)
  record_audit (
      audit_row invoice.company_id user_id AuditAction.post "sales_invoice" id none
        (some (AuditValue.journal_entry entry.id)))
  pure updated
