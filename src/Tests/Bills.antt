-- ===== src/Tests/Bills.antt =====
-- A supplier invoice at the company of Fixture, and its payment.
use advanced_accountancy.Prelude.{true, ◌≡◌, refl, none, some, [], ◌∷◌, List, String, ℕ}
use advanced_accountancy.Prelude.Int.{pos, ◌*ℤ◌}
use advanced_accountancy.Tx.{ok}
use advanced_accountancy.Schema.{
  Uuid, asset, liability, expense, debit, credit, Side, PostingRule, PostingRuleLine,
  SupplierInvoice, SupplierPayment, Db, doc_eq, from_cents,
}
use advanced_accountancy.Audit.{record_audit}
use advanced_accountancy.Tables.{create_row, update_row}
use advanced_accountancy.Accounting.TaxRates.{in_effect, latest_rate, current_tax_rate_percent}
use advanced_accountancy.Accounting.Engine.Balance.{entry_debits, entry_credits}
use advanced_accountancy.Sales.Pricing.{line_total_of, tax_of, stored_price, price_lines}
use advanced_accountancy.Purchasing.SupplierInvoices
use advanced_accountancy.Purchasing.SupplierInvoices.{
  CreateSupplierInvoiceDto, new_invoice, transition,
}
use advanced_accountancy.Purchasing.SupplierInvoices.Posting.{InvoicePosted}
use advanced_accountancy.Purchasing.SupplierInvoices.Success.{supplier_invoice_posts}
use advanced_accountancy.Purchasing.SupplierPayments
use advanced_accountancy.Purchasing.SupplierPayments.{
  CreateSupplierPaymentDto, new_payment, pay_invoices,
}
use advanced_accountancy.Purchasing.SupplierPayments.Paid.{PaymentPosted}
use advanced_accountancy.Purchasing.SupplierPayments.Success.{payment_posts}
use advanced_accountancy.Purchasing.DebitNotes
use advanced_accountancy.Purchasing.DebitNotes.{CreateDebitNoteDto, new_note, settle}
use advanced_accountancy.Purchasing.GoodsReceipts
use advanced_accountancy.Purchasing.GoodsReceipts.{
  CreateGoodsReceiptDto, new_receipt, take_in, cost_of,
}
use advanced_accountancy.Tests.Fixture.{rounding_runs, august, company_db, control, committed}
use advanced_accountancy.Tests.Accounting.{engine_runs}
use advanced_accountancy.Tests.Inventory.{stock_runs}

abbrev rule_line : ℕ → Side → String → String → PostingRuleLine
rule_line n side account source = record {
  line_no = n;
  side = side;
  account_resolver = account;
  amount_source = source;
}

abbrev rule : Uuid → String → List PostingRuleLine → PostingRule
rule id event_type lines = record {
  id = id;
  company_id = 1;
  event_type = event_type;
  is_active = true;
  lines = lines;
}

abbrev purchase_rule : PostingRule
purchase_rule = rule 33 "PURCHASE_INVOICE_POSTED" (
    rule_line 1 debit "CONTROL:PURCHASE_EXPENSE" "subtotal"
    ∷ rule_line 2 debit "CONTROL:TAX_INPUT" "taxAmount"
    ∷ rule_line 3 credit "CONTROL:AP" "total"
    ∷ [])

abbrev payment_rule : PostingRule
payment_rule = rule 34 "SUPPLIER_PAYMENT_POSTED" (
    rule_line 1 debit "CONTROL:AP" "amount"
    ∷ rule_line 2 credit "OVERRIDE:bankAccount" "amount"
    ∷ [])

abbrev pub debit_rule : PostingRule
debit_rule = rule 35 "DEBIT_NOTE_POSTED" (
    rule_line 1 debit "CONTROL:AP" "amount"
    ∷ rule_line 2 credit "CONTROL:PURCHASE_EXPENSE" "amount"
    ∷ [])

abbrev pub purchase_db : Db
purchase_db = record company_db {
  chart_of_accounts =
      control 24 "1900" asset "BANK"
      ∷ control 25 "2100" liability "AP"
      ∷ control 26 "5100" expense "PURCHASE_EXPENSE"
      ∷ control 27 "1300" asset "TAX_INPUT"
      ∷ [];
  posting_rules = purchase_rule ∷ payment_rule ∷ debit_rule ∷ [];
  tax_rates =
      record {
        tax_code_id = 41;
        rate_percent = pos 100000;
        effective_from = 737791;
        effective_to = none;
      }
      ∷ [];
  bank_accounts =
      record { id = 91; company_id = 1; currency_code = "USD"; gl_account_id = 24 } ∷ [];
}

-- 4 at 25.00, taxed.
abbrev pub bill : CreateSupplierInvoiceDto
bill = record {
  company_id = 1;
  supplier_id = 52;
  purchase_order_id = none;
  invoice_date = 738010;
  due_date = 738040;
  currency_code = "USD";
  lines =
      record {
        product_id = none;
        description = none;
        quantity = pos 40000;
        unit_price = pos 250000;
        tax_code_id = some 41;
      }
      ∷ [];
}

unfoldable pub purchase_runs : Unit {0}
unfolding engine_runs stock_runs SupplierInvoices.create SupplierInvoices.submit
    SupplierInvoices.approve SupplierInvoices.post transition create_row update_row price_lines
    line_total_of tax_of stored_price current_tax_rate_percent latest_rate in_effect rounding_runs
    doc_eq record_audit ◌*ℤ◌ from_cents SupplierPayments.create SupplierPayments.post pay_invoices
    DebitNotes.create DebitNotes.post settle GoodsReceipts.create GoodsReceipts.post take_in cost_of
purchase_runs = tt

abbrev blank_bill : SupplierInvoice
blank_bill = new_invoice bill (record { subtotal = pos 0; tax_amount = pos 0; lines = [] }) [] 0

abbrev pub billed : SupplierInvoice × Db
unfolding purchase_runs
billed = committed (SupplierInvoices.create 5 bill purchase_db) blank_bill purchase_db

pub billed_runs : SupplierInvoices.create 5 bill purchase_db ≡ ok billed
unfolding purchase_runs
billed_runs = refl

abbrev pub sent : SupplierInvoice × Db
unfolding purchase_runs
sent = committed (SupplierInvoices.submit 5 101 billed.1) blank_bill purchase_db

pub sent_runs : SupplierInvoices.submit 5 101 billed.1 ≡ ok sent
unfolding purchase_runs
sent_runs = refl

abbrev pub accepted : SupplierInvoice × Db
unfolding purchase_runs
accepted = committed (SupplierInvoices.approve 6 101 sent.1) blank_bill purchase_db

pub accepted_runs : SupplierInvoices.approve 6 101 sent.1 ≡ ok accepted
unfolding purchase_runs
accepted_runs = refl

abbrev pub booked : SupplierInvoice × Db
unfolding purchase_runs
booked = committed (SupplierInvoices.post 6 101 accepted.1) blank_bill purchase_db

pub booked_runs : SupplierInvoices.post 6 101 accepted.1 ≡ ok booked
unfolding purchase_runs
booked_runs = refl

supplier_invoice_posts_example :
    (posted : SupplierInvoice) × (t : Db) × (SupplierInvoices.post 6 101 accepted.1
      ≡ ok (posted, t))
    × ((p : InvoicePosted 6 101 accepted.1 t posted) × (entry_debits p.entry
          ≡ entry_credits p.entry))
unfolding purchase_runs
supplier_invoice_posts_example =
    supplier_invoice_posts 6 101 accepted.1 accepted.0 purchase_rule august refl refl refl refl refl
      refl (refl, (refl, (refl, tt))) refl refl

abbrev transfer : CreateSupplierPaymentDto
transfer = record {
  company_id = 1;
  supplier_id = 52;
  bank_account_id = 91;
  payment_date = 738012;
  allocations = record { supplier_invoice_id = 101; amount = pos 5000000000 } ∷ [];
}

abbrev blank_payment : SupplierPayment
blank_payment = new_payment transfer [] 0

abbrev pub drafted : SupplierPayment × Db
unfolding purchase_runs
drafted = committed (SupplierPayments.create 5 transfer booked.1) blank_payment purchase_db

drafted_runs : SupplierPayments.create 5 transfer booked.1 ≡ ok drafted
unfolding purchase_runs
drafted_runs = refl

abbrev pub settled : SupplierPayment × Db
unfolding purchase_runs
settled = committed (SupplierPayments.post 6 drafted.0.id drafted.1) blank_payment purchase_db

pub settled_runs : SupplierPayments.post 6 drafted.0.id drafted.1 ≡ ok settled
unfolding purchase_runs
settled_runs = refl

payment_posts_example :
    (p : SupplierPayment) × (t : Db) × (SupplierPayments.post 6 drafted.0.id drafted.1 ≡ ok (p, t))
    × ((d : PaymentPosted 6 drafted.0.id drafted.1 t) × (entry_debits d.entry
          ≡ entry_credits d.entry))
unfolding purchase_runs
payment_posts_example =
    payment_posts 6 drafted.0.id drafted.1 drafted.0
      (record { id = 91; company_id = 1; currency_code = "USD"; gl_account_id = 24 }) payment_rule
      august refl refl refl refl ((_, refl), tt) refl refl refl (refl, (refl, tt)) refl refl
