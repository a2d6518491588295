-- ===== src/Schema/Sales.antt =====
-- Models SalesInvoice, SalesInvoiceLine, CustomerReceipt, CustomerReceiptAllocation, Quotation,
-- SalesOrder, their lines, and CreditNote.
use advanced_accountancy.Prelude.{ℕ, String, Bool, true, false, Option, List}
use advanced_accountancy.Prelude.Text.{Text}
use advanced_accountancy.Schema.Units.{Uuid, Day, Cents, Quantity}

pub data DocStatus : Type 0 where
  doc_draft doc_submitted doc_approved doc_posted doc_cancelled : DocStatus

unfoldable pub doc_eq : DocStatus → DocStatus → Bool
doc_eq doc_draft doc_draft = true
doc_eq doc_submitted doc_submitted = true
doc_eq doc_approved doc_approved = true
doc_eq doc_posted doc_posted = true
doc_eq doc_cancelled doc_cancelled = true
doc_eq _ _ = false

pub record SalesInvoiceLine : Type 0 where
  pub line_no : ℕ
  pub product_id : Uuid
  pub description : Option Text
  pub quantity : Quantity
  pub unit_price : Cents
  pub tax_code_id : Option Uuid
  pub line_total : Cents

pub record SalesInvoice : Type 0 where
  pub id : Uuid
  pub company_id : Uuid
  pub customer_id : Uuid
  pub sales_order_id : Option Uuid
  pub invoice_number : Text
  pub invoice_date : Day
  pub due_date : Day
  pub currency_code : String
  pub subtotal : Cents
  pub tax_amount : Cents
  pub total : Cents
  pub amount_paid : Cents
  pub status : DocStatus
  pub journal_entry_id : Option Uuid
  pub posted_at : Option Day
  pub lines : List SalesInvoiceLine

pub record ReceiptAllocation : Type 0 where
  pub sales_invoice_id : Uuid
  pub amount : Cents

pub record CustomerReceipt : Type 0 where
  pub id : Uuid
  pub company_id : Uuid
  pub customer_id : Uuid
  pub bank_account_id : Uuid
  pub receipt_number : Text
  pub receipt_date : Day
  pub amount : Cents
  pub status : DocStatus
  pub journal_entry_id : Option Uuid
  pub posted_at : Option Day
  pub allocations : List ReceiptAllocation

-- `QuotationLine`, `SalesOrderLine` and `PurchaseOrderLine`, which are alike.
pub record OrderLine : Type 0 where
  pub line_no : ℕ
  pub product_id : Uuid
  pub quantity : Quantity
  pub unit_price : Cents
  pub tax_code_id : Option Uuid
  pub line_total : Cents

-- The rows are created as drafts, and the services change no status.
pub record Quotation : Type 0 where
  pub id : Uuid
  pub company_id : Uuid
  pub customer_id : Uuid
  pub quotation_number : Text
  pub quotation_date : Day
  pub currency_code : String
  pub status : DocStatus
  pub subtotal : Cents
  pub tax_amount : Cents
  pub total : Cents
  pub lines : List OrderLine

pub data OrderStatus : Type 0 where
  order_draft order_confirmed order_fulfilled order_cancelled : OrderStatus

pub record SalesOrder : Type 0 where
  pub id : Uuid
  pub company_id : Uuid
  pub customer_id : Uuid
  pub quotation_id : Option Uuid
  pub order_number : Text
  pub order_date : Day
  pub currency_code : String
  pub status : OrderStatus
  pub subtotal : Cents
  pub tax_amount : Cents
  pub total : Cents
  pub lines : List OrderLine

pub record CreditNote : Type 0 where
  pub id : Uuid
  pub company_id : Uuid
  pub customer_id : Uuid
  pub sales_invoice_id : Option Uuid
  pub credit_note_number : Text
  pub credit_note_date : Day
  pub amount : Cents
  pub status : DocStatus
  pub journal_entry_id : Option Uuid
