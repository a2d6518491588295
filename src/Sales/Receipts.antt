-- ===== src/Sales/Receipts.antt =====
-- backend/src/sales/customer-receipts.ts: money received and allocated to invoices.
pub mod Paid
pub mod Success
use advanced_accountancy.Prelude.{
  Bool, not, Option, none, some, List, [], ◌∷◌, ◌++◌, ◌==◌, find, modify_first, map, sum_by,
}
use advanced_accountancy.Prelude.Int.{pos, ◌+ℤ◌, leb_ℤ}
use advanced_accountancy.Prelude.Text.{Text, codes}
use advanced_accountancy.Tx.{
  Tx, pure, gets, or_throw, modify, throw_if, ◌>>=◌, ◌>>◌, not_found, wrong_status, record_missing,
  nonpositive_amount, no_bank_account,
}
use advanced_accountancy.Schema.{
  Uuid, Day, Amount, Cents, CustomerReceipt, ReceiptAllocation, SalesInvoice, BankAccount,
  doc_draft, doc_posted, doc_eq, no_dimensions, AuditAction, AuditValue, Db, fresh, from_cents,
  to_cents,
}
use advanced_accountancy.Audit.{record_audit, audit_row}
use advanced_accountancy.Accounting.Numbering.{next}
use advanced_accountancy.Accounting.Engine.{PostEventParams, post_event}
use advanced_accountancy.Sales.Invoices.{update_invoice}

pub record ReceiptAllocationDto : Type 0 where
  pub sales_invoice_id : Uuid
  pub amount : Amount

pub record CreateCustomerReceiptDto : Type 0 where
  pub company_id : Uuid
  pub customer_id : Uuid
  pub bank_account_id : Uuid
  pub receipt_date : Day
  pub allocations : List ReceiptAllocationDto

abbrev pub receipt_has_id : Uuid → CustomerReceipt → Bool
receipt_has_id id r = r.id == id

abbrev pub bank_has_id : Uuid → BankAccount → Bool
bank_has_id id b = b.id == id

abbrev pub allocation_of : ReceiptAllocationDto → ReceiptAllocation
allocation_of a = record { sales_invoice_id = a.sales_invoice_id; amount = to_cents a.amount }

abbrev pub allocated : CreateCustomerReceiptDto → Amount
allocated dto = sum_by (λ a. a.amount) dto.allocations

abbrev pub new_receipt : CreateCustomerReceiptDto → Text → Uuid → CustomerReceipt
new_receipt dto receipt_number id = record {
  id = id;
  company_id = dto.company_id;
  customer_id = dto.customer_id;
  bank_account_id = dto.bank_account_id;
  receipt_number = receipt_number;
  receipt_date = dto.receipt_date;
  amount = to_cents (allocated dto);
  status = doc_draft;
  journal_entry_id = none;
  posted_at = none;
  allocations = map allocation_of dto.allocations;
}

unfoldable pub create_receipt : (Uuid → CustomerReceipt) → Tx Db CustomerReceipt
create_receipt make = do
  id ← fresh
  modify (λ s. record s { customer_receipts = s.customer_receipts ++ make id ∷ [] })
  pure (make id)

unfoldable pub update_receipt : Uuid → (CustomerReceipt → CustomerReceipt) → Tx Db CustomerReceipt
update_receipt id change = do
  row ← gets (λ s. find (receipt_has_id id) s.customer_receipts)
  before ← or_throw row record_missing
  modify (λ s. record s {
    customer_receipts = modify_first (receipt_has_id id) change s.customer_receipts;
  })
  pure (change before)

unfoldable pub create : Uuid → CreateCustomerReceiptDto → Tx Db CustomerReceipt
create user_id dto = do
  throw_if (leb_ℤ (allocated dto) (pos 0)) nonpositive_amount
  receipt_number ← next dto.company_id "CUSTOMER_RECEIPT" (codes "RCT-")
  receipt ← create_receipt (new_receipt dto receipt_number)
  record_audit (
      audit_row dto.company_id user_id AuditAction.create "customer_receipt" receipt.id none
        (some (AuditValue.number_amount receipt_number (allocated dto))))
  pure receipt

-- The event of a receipt; its rule takes the bank's own account.
abbrev pub receipt_event : Uuid → CustomerReceipt → BankAccount → PostEventParams
receipt_event user_id r bank_account = record {
  company_id = r.company_id;
  branch_id = none;
  event_type = "CUSTOMER_RECEIPT_POSTED";
  entry_date = r.receipt_date;
  currency_code = bank_account.currency_code;
  exchange_rate = none;
  source_module = "SALES";
  source_doc_type = "customer_receipt";
  source_doc_id = r.id;
  description = some (codes "Customer Receipt " ++ r.receipt_number);
  amounts = ("amount", from_cents r.amount) ∷ [];
  account_overrides = ("bankAccount", bank_account.gl_account_id) ∷ [];
  dimensions = record no_dimensions { customer_id = some r.customer_id };
  created_by = some user_id;
}

abbrev pub pay : Cents → SalesInvoice → SalesInvoice
pay amount i = record i { amount_paid = i.amount_paid +ℤ amount }

-- The loop over the allocations.
unfoldable pub pay_invoices : List ReceiptAllocation → Tx Db (Unit {0})
pay_invoices [] = pure tt
pay_invoices (a ∷ rest) = do
  paid ← update_invoice a.sales_invoice_id (pay a.amount)
  pay_invoices rest

abbrev pub mark_posted : Uuid → Day → CustomerReceipt → CustomerReceipt
mark_posted entry_id now r = record r {
  status = doc_posted;
  journal_entry_id = some entry_id;
  posted_at = some now;
}

unfoldable pub post : Uuid → Uuid → Tx Db CustomerReceipt
post user_id id = do
  found ← gets (λ s. find (receipt_has_id id) s.customer_receipts)
  receipt ← or_throw found not_found
  throw_if (not (doc_eq receipt.status doc_draft)) wrong_status
  account ← gets (λ s. find (bank_has_id receipt.bank_account_id) s.bank_accounts)
  bank_account ← or_throw account no_bank_account
  entry ← post_event (receipt_event user_id receipt bank_account)
  pay_invoices receipt.allocations
  now ← gets (λ s. s.now)
  updated ← update_receipt id (mark_posted entry.id now)
  record_audit (
      audit_row receipt.company_id user_id AuditAction.post "customer_receipt" id none
        (some (AuditValue.journal_entry entry.id)))
  pure updated
