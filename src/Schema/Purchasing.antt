-- ===== src/Schema/Purchasing.antt =====
-- Models PurchaseRequest, PurchaseOrder, GoodsReceipt, SupplierInvoice, their lines, SupplierPayment,
-- SupplierPaymentAllocation and DebitNote.
use advanced_accountancy.Prelude.{ℕ, String, Option, List}
use advanced_accountancy.Prelude.Text.{Text}
use advanced_accountancy.Schema.Units.{Uuid, Day, Cents, Quantity}
use advanced_accountancy.Schema.Sales.{DocStatus, OrderStatus, OrderLine}

pub record PurchaseRequestLine : Type 0 where
  pub line_no : ℕ
  pub product_id : Uuid
  pub quantity : Quantity

pub record PurchaseRequest : Type 0 where
  pub id : Uuid
  pub company_id : Uuid
  pub request_number : Text
  pub request_date : Day
  pub requested_by : Option Uuid
  pub status : DocStatus
  pub lines : List PurchaseRequestLine

pub record PurchaseOrder : Type 0 where
  pub id : Uuid
  pub company_id : Uuid
  pub supplier_id : Uuid
  pub purchase_request_id : Option Uuid
  pub order_number : Text
  pub order_date : Day
  pub currency_code : String
  pub status : OrderStatus
  pub subtotal : Cents
  pub tax_amount : Cents
  pub total : Cents
  pub lines : List OrderLine

pub record GoodsReceiptLine : Type 0 where
  pub line_no : ℕ
  pub product_id : Uuid
  pub quantity : Quantity
  pub unit_cost : Cents

pub record GoodsReceipt : Type 0 where
  pub id : Uuid
  pub company_id : Uuid
  pub purchase_order_id : Option Uuid
  pub warehouse_id : Uuid
  pub receipt_number : Text
  pub receipt_date : Day
  pub status : DocStatus
  pub lines : List GoodsReceiptLine

pub record SupplierInvoiceLine : Type 0 where
  pub line_no : ℕ
  pub product_id : Option Uuid
  pub description : Option Text
  pub quantity : Quantity
  pub unit_price : Cents
  pub tax_code_id : Option Uuid
  pub line_total : Cents

pub record SupplierInvoice : Type 0 where
  pub id : Uuid
  pub company_id : Uuid
  pub supplier_id : Uuid
  pub purchase_order_id : Option Uuid
  pub invoice_number : Text
  pub invoice_date : Day
  pub due_date : Day
  pub currency_code : String
  pub subtotal : Cents
  pub tax_amount : Cents
  pub total : Cents
  pub amount_paid : Cents
  pub status : DocStatus
  pub journal_entry_id : Option Uuid
  pub posted_at : Option Day
  pub lines : List SupplierInvoiceLine

pub record PaymentAllocation : Type 0 where
  pub supplier_invoice_id : Uuid
  pub amount : Cents

pub record SupplierPayment : Type 0 where
  pub id : Uuid
  pub company_id : Uuid
  pub supplier_id : Uuid
  pub bank_account_id : Uuid
  pub payment_number : Text
  pub payment_date : Day
  pub amount : Cents
  pub status : DocStatus
  pub journal_entry_id : Option Uuid
  pub posted_at : Option Day
  pub allocations : List PaymentAllocation

pub record DebitNote : Type 0 where
  pub id : Uuid
  pub company_id : Uuid
  pub supplier_id : Uuid
  pub supplier_invoice_id : Option Uuid
  pub debit_note_number : Text
  pub debit_note_date : Day
  pub amount : Cents
  pub status : DocStatus
  pub journal_entry_id : Option Uuid
