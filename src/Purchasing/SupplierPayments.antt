-- ===== src/Purchasing/SupplierPayments.antt =====
-- backend/src/purchasing/supplier-payments.ts: money paid and allocated to supplier invoices.
pub mod Paid
pub mod Success
use advanced_accountancy.Prelude.{not, none, some, List, [], ◌∷◌, ◌++◌, find, refl, map, sum_by}
use advanced_accountancy.Prelude.Int.{pos}
use advanced_accountancy.Prelude.Text.{Text, codes}
use advanced_accountancy.Tx.{
  Tx, pure, gets, or_throw, throw_if, ◌>>=◌, ◌>>◌, not_found, wrong_status, nonpositive_amount,
  no_bank_account,
}
use advanced_accountancy.Schema.{
  Uuid, Day, Amount, SupplierPayment, PaymentAllocation, BankAccount, doc_draft, doc_posted, doc_eq,
  no_dimensions, AuditAction, AuditValue, Db, from_cents, to_cents,
}
use advanced_accountancy.Tables.{Table, find_row, create_row, update_row}
use advanced_accountancy.Audit.{record_audit, audit_row}
use advanced_accountancy.Accounting.Numbering.{next}
use advanced_accountancy.Accounting.Engine.{PostEventParams, post_event}
use advanced_accountancy.Prelude.Int.{leb_ℤ}
use advanced_accountancy.Sales.Receipts.{bank_has_id}
use advanced_accountancy.Purchasing.SupplierInvoices.{supplier_invoices, pay}

pub record PaymentAllocationDto : Type 0 where
  pub supplier_invoice_id : Uuid
  pub amount : Amount

pub record CreateSupplierPaymentDto : Type 0 where
  pub company_id : Uuid
  pub supplier_id : Uuid
  pub bank_account_id : Uuid
  pub payment_date : Day
  pub allocations : List PaymentAllocationDto

abbrev pub supplier_payments : Table SupplierPayment
supplier_payments = record {
  rows = λ s. s.supplier_payments;
  set_rows = λ xs s. record s { supplier_payments = xs };
  id_of = λ r. r.id;
  holds = λ xs s. refl;
  audited = λ logs s. refl;
  same_journal = λ xs s. refl;
  same_balances = λ xs s. refl;
}

abbrev pub allocation_of : PaymentAllocationDto → PaymentAllocation
allocation_of a = record { supplier_invoice_id = a.supplier_invoice_id; amount = to_cents a.amount }

abbrev pub allocated : CreateSupplierPaymentDto → Amount
allocated dto = sum_by (λ a. a.amount) dto.allocations

abbrev pub new_payment : CreateSupplierPaymentDto → Text → Uuid → SupplierPayment
new_payment dto payment_number id = record {
  id = id;
  company_id = dto.company_id;
  supplier_id = dto.supplier_id;
  bank_account_id = dto.bank_account_id;
  payment_number = payment_number;
  payment_date = dto.payment_date;
  amount = to_cents (allocated dto);
  status = doc_draft;
  journal_entry_id = none;
  posted_at = none;
  allocations = map allocation_of dto.allocations;
}

unfoldable pub create : Uuid → CreateSupplierPaymentDto → Tx Db SupplierPayment
create user_id dto = do
  throw_if (leb_ℤ (allocated dto) (pos 0)) nonpositive_amount
  payment_number ← next dto.company_id "SUPPLIER_PAYMENT" (codes "PAY-")
  payment ← create_row supplier_payments (new_payment dto payment_number)
  record_audit (
      audit_row dto.company_id user_id AuditAction.create "supplier_payment" payment.id none
        (some (AuditValue.number_amount payment_number (allocated dto))))
  pure payment

-- The event of a payment; its rule takes the bank's own account.
abbrev pub payment_event : Uuid → SupplierPayment → BankAccount → PostEventParams
payment_event user_id p bank_account = record {
  company_id = p.company_id;
  branch_id = none;
  event_type = "SUPPLIER_PAYMENT_POSTED";
  entry_date = p.payment_date;
  currency_code = bank_account.currency_code;
  exchange_rate = none;
  source_module = "PURCHASING";
  source_doc_type = "supplier_payment";
  source_doc_id = p.id;
  description = some (codes "Supplier Payment " ++ p.payment_number);
  amounts = ("amount", from_cents p.amount) ∷ [];
  account_overrides = ("bankAccount", bank_account.gl_account_id) ∷ [];
  dimensions = record no_dimensions { supplier_id = some p.supplier_id };
  created_by = some user_id;
}

-- The loop over the allocations.
unfoldable pub pay_invoices : List PaymentAllocation → Tx Db (Unit {0})
pay_invoices [] = pure tt
pay_invoices (a ∷ rest) = do
  paid ← update_row supplier_invoices a.supplier_invoice_id (pay a.amount)
  pay_invoices rest

abbrev pub mark_posted : Uuid → Day → SupplierPayment → SupplierPayment
mark_posted entry_id now p = record p {
  status = doc_posted;
  journal_entry_id = some entry_id;
  posted_at = some now;
}

unfoldable pub post : Uuid → Uuid → Tx Db SupplierPayment
post user_id id = do
  found ← gets (find_row supplier_payments id)
  payment ← or_throw found not_found
  throw_if (not (doc_eq payment.status doc_draft)) wrong_status
  account ← gets (λ s. find (bank_has_id payment.bank_account_id) s.bank_accounts)
  bank_account ← or_throw account no_bank_account
  entry ← post_event (payment_event user_id payment bank_account)
  pay_invoices payment.allocations
  now ← gets (λ s. s.now)
  posted ← update_row supplier_payments id (mark_posted entry.id now)
  record_audit (
      audit_row payment.company_id user_id AuditAction.post "supplier_payment" id none
        (some (AuditValue.journal_entry entry.id)))
  pure posted
