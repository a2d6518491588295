-- ===== src/Purchasing/SupplierInvoices.antt =====
-- backend/src/purchasing/supplier-invoices.ts: an invoice of a supplier, from draft to posted.
pub mod Posting
pub mod Success
use advanced_accountancy.Prelude.{String, not, Option, none, some, List, [], ◌∷◌, ◌++◌, refl, ℕ}
use advanced_accountancy.Prelude.Int.{pos, ◌+ℤ◌}
use advanced_accountancy.Prelude.Text.{Text, codes}
use advanced_accountancy.Tx.{
  Tx, pure, gets, or_throw, throw_if, ◌>>=◌, ◌>>◌, not_found, wrong_status,
}
use advanced_accountancy.Schema.{
  Uuid, Day, Amount, Cents, SupplierInvoice, SupplierInvoiceLine, Quantity, doc_submitted,
  doc_approved, DocStatus, doc_draft, doc_posted, doc_eq, no_dimensions, AuditAction, AuditValue,
  Db, from_cents,
}
use advanced_accountancy.Tables.{Table, find_row, create_row, update_row}
use advanced_accountancy.Audit.{record_audit, audit_row}
use advanced_accountancy.Accounting.Numbering.{next}
use advanced_accountancy.Accounting.Engine.{PostEventParams, post_event}
use advanced_accountancy.Sales.Pricing.{LineShape, Priced, price_lines, stored_price}

pub record SupplierInvoiceLineDto : Type 0 where
  pub product_id : Option Uuid
  pub description : Option Text
  pub quantity : Quantity
  pub unit_price : Quantity
  pub tax_code_id : Option Uuid

pub record CreateSupplierInvoiceDto : Type 0 where
  pub company_id : Uuid
  pub supplier_id : Uuid
  pub purchase_order_id : Option Uuid
  pub invoice_date : Day
  pub due_date : Day
  pub currency_code : String
  pub lines : List SupplierInvoiceLineDto

abbrev pub supplier_line : ℕ → SupplierInvoiceLineDto → Cents → SupplierInvoiceLine
supplier_line line_no l line_total = record {
  line_no = line_no;
  product_id = l.product_id;
  description = l.description;
  quantity = l.quantity;
  unit_price = stored_price l.unit_price;
  tax_code_id = l.tax_code_id;
  line_total = line_total;
}

abbrev pub supplier_shape : LineShape SupplierInvoiceLineDto SupplierInvoiceLine
supplier_shape = record {
  quantity = λ l. l.quantity;
  unit_price = λ l. l.unit_price;
  tax_code_id = λ l. l.tax_code_id;
  row = supplier_line;
  total_of = λ r. r.line_total;
  row_total = λ n d c. refl;
}

abbrev pub supplier_invoices : Table SupplierInvoice
supplier_invoices = record {
  rows = λ s. s.supplier_invoices;
  set_rows = λ xs s. record s { supplier_invoices = xs };
  id_of = λ r. r.id;
  holds = λ xs s. refl;
  audited = λ logs s. refl;
  same_journal = λ xs s. refl;
  same_balances = λ xs s. refl;
}

-- `data: { amountPaid: { increment } }`
abbrev pub pay : Cents → SupplierInvoice → SupplierInvoice
pay amount i = record i { amount_paid = i.amount_paid +ℤ amount }

abbrev pub new_invoice :
    CreateSupplierInvoiceDto → Priced SupplierInvoiceLine → Text → Uuid → SupplierInvoice
new_invoice dto priced invoice_number id = record {
  id = id;
  company_id = dto.company_id;
  supplier_id = dto.supplier_id;
  purchase_order_id = dto.purchase_order_id;
  invoice_number = invoice_number;
  invoice_date = dto.invoice_date;
  due_date = dto.due_date;
  currency_code = dto.currency_code;
  subtotal = priced.subtotal;
  tax_amount = priced.tax_amount;
  total = priced.subtotal +ℤ priced.tax_amount;
  amount_paid = pos 0;
  status = doc_draft;
  journal_entry_id = none;
  posted_at = none;
  lines = priced.lines;
}

unfoldable pub create : Uuid → CreateSupplierInvoiceDto → Tx Db SupplierInvoice
create user_id dto = do
  priced ← price_lines supplier_shape dto.invoice_date 1 (pos 0) (pos 0) dto.lines
  invoice_number ← next dto.company_id "SUPPLIER_INVOICE" (codes "SINV-")
  invoice ← create_row supplier_invoices (new_invoice dto priced invoice_number)
  record_audit (
      audit_row dto.company_id user_id AuditAction.create "supplier_invoice" invoice.id none
        (some (AuditValue.number_total invoice_number invoice.total)))
  pure invoice

abbrev pub set_status : DocStatus → SupplierInvoice → SupplierInvoice
set_status to i = record i { status = to }

unfoldable pub transition : Uuid → Uuid → DocStatus → DocStatus → Tx Db SupplierInvoice
transition user_id id from to = do
  found ← gets (find_row supplier_invoices id)
  invoice ← or_throw found not_found
  throw_if (not (doc_eq invoice.status from)) wrong_status
  updated ← update_row supplier_invoices id (set_status to)
  record_audit (
      audit_row invoice.company_id user_id AuditAction.edit "supplier_invoice" id
        (some (AuditValue.doc_status from)) (some (AuditValue.doc_status to)))
  pure updated

unfoldable pub submit : Uuid → Uuid → Tx Db SupplierInvoice
unfolding transition
submit user_id id = transition user_id id doc_draft doc_submitted

unfoldable pub approve : Uuid → Uuid → Tx Db SupplierInvoice
unfolding transition
approve user_id id = transition user_id id doc_submitted doc_approved

abbrev pub invoice_amounts : SupplierInvoice → List (String × Amount)
invoice_amounts i =
    ("subtotal", from_cents i.subtotal)
    ∷ ("taxAmount", from_cents i.tax_amount)
    ∷ ("total", from_cents i.total)
    ∷ []

-- The event of an invoice.
abbrev pub invoice_event : Uuid → SupplierInvoice → PostEventParams
invoice_event user_id i = record {
  company_id = i.company_id;
  branch_id = none;
  event_type = "PURCHASE_INVOICE_POSTED";
  entry_date = i.invoice_date;
  currency_code = i.currency_code;
  exchange_rate = none;
  source_module = "PURCHASING";
  source_doc_type = "supplier_invoice";
  source_doc_id = i.id;
  description = some (codes "Supplier Invoice " ++ i.invoice_number);
  amounts = invoice_amounts i;
  account_overrides = [];
  dimensions = record no_dimensions { supplier_id = some i.supplier_id };
  created_by = some user_id;
}

abbrev pub mark_posted : Uuid → Day → SupplierInvoice → SupplierInvoice
mark_posted entry_id now i = record i {
  status = doc_posted;
  journal_entry_id = some entry_id;
  posted_at = some now;
}

unfoldable pub post : Uuid → Uuid → Tx Db SupplierInvoice
post user_id id = do
  found ← gets (find_row supplier_invoices id)
  invoice ← or_throw found not_found
  throw_if (not (doc_eq invoice.status doc_approved)) wrong_status
  entry ← post_event (invoice_event user_id invoice)
  now ← gets (λ s. s.now)
  posted ← update_row supplier_invoices id (mark_posted entry.id now)
  record_audit (
      audit_row invoice.company_id user_id AuditAction.post "supplier_invoice" id none
        (some (AuditValue.journal_entry entry.id)))
  pure posted
