-- ===== src/Operations/Courses.antt =====
-- A course of the program: its requests in any order, whatever they answer, between other changes of
-- tables that are not the books. It is a history of the books.
use advanced_accountancy.Prelude.{◌≡◌}
use advanced_accountancy.Tx.{Tx, ok}
use advanced_accountancy.Tx.Keeps.{Keeps}
use advanced_accountancy.Tx.Requests.{Stays-transaction}
use advanced_accountancy.Schema.{Db}
use advanced_accountancy.Accounting.Histories.{
  History, start, then_step, posted_event, created, submitted_entry, approved_entry, posted_entry,
  reversed_entry, Step, History-Reconciled, History-Preserves,
}
use advanced_accountancy.Accounting.Histories
use advanced_accountancy.Accounting.Engine.Ledger.{Reconciled}
use advanced_accountancy.Accounting.JournalEntries.Lifecycle.{Preserves}
use advanced_accountancy.Operations.Books.{Books}
use advanced_accountancy.Operations.Companies
use advanced_accountancy.Operations.Sales
use advanced_accountancy.Operations.Purchasing
use advanced_accountancy.Operations.Stock
use advanced_accountancy.Operations.Payroll
use advanced_accountancy.Operations.Assets
use advanced_accountancy.Operations.Consolidation
use advanced_accountancy.Operations.Banking
use advanced_accountancy.Operations.Calls.{
  Call, left, after, provision_company, open_next_year, change_period_status, create_entry,
  submit_entry, approve_entry, post_entry, reverse_entry, create_quotation, create_sales_order,
  create_sales_invoice, submit_sales_invoice, approve_sales_invoice, post_sales_invoice,
  create_receipt, post_receipt, create_delivery, post_delivery, create_credit_note,
  post_credit_note, create_purchase_request, approve_purchase_request, create_purchase_order,
  create_goods_receipt, post_goods_receipt, create_supplier_invoice, submit_supplier_invoice,
  approve_supplier_invoice, post_supplier_invoice, create_payment, post_payment, create_debit_note,
  post_debit_note, create_stock_count, post_stock_count, create_payroll_run, approve_payroll_run,
  post_payroll_run, create_asset, depreciate, record_trade, match_trade, create_consolidation,
  finalize_consolidation, load_statement, approve_bank_match, ignore_bank_line,
}

pub data Course (s : Db) : Db → Type 0 where
  begin : Course s s
  request : {t : Db} → Course s t → (c : Call) → Course s (after c t)
  elsewhere :
      {t u : Db}
      → Course s t
      → u.journal_entries ≡ t.journal_entries
      → u.gl_balances ≡ t.gl_balances
      → Course s u

module _ (s : Db) where
  -- To be a history is kept by the posting of an event, and by what is not of the books.
  History-Books : Books (History s)
  History-Books = record {
    frame = λ t u j g h. then_step h (Histories.elsewhere j g);
    event = λ params. record { at = λ t h e u run. then_step h (posted_event params e run) };
  }

  -- So it is by a step of the manual workflow.
  Step-Keeps :
      {A : Type 0} (m : Tx Db A)
      → ((t u : Db) (a : A) → m t ≡ ok (a, u) → Step t u)
      → Keeps (History s) m
  Step-Keeps m step = record { at = λ t h a u run. then_step h (step t u a run) }

  left-History :
      {A : Type 0} (m : Tx Db A) (t : Db) → Keeps (History s) m → History s t → History s (left m t)
  left-History m t k h = (Stays-transaction m k).at t h

  after-History : (c : Call) (t : Db) → History s t → History s (after c t)
  unfolding after
  after-History (provision_company company currency) t h =
      left-History _ t (Companies.provisioned-Keeps History-Books company currency) h
  after-History (open_next_year user company) t h =
      left-History _ t (Companies.next_year_created-Keeps History-Books user company) h
  after-History (change_period_status user period status) t h =
      left-History _ t (Companies.period_set-Keeps History-Books user period status) h
  after-History (create_entry user dto) t h =
      left-History _ t (Step-Keeps _ λ t u e run. created user dto e run) h
  after-History (submit_entry user id) t h =
      left-History _ t (Step-Keeps _ λ t u e run. submitted_entry user id e run) h
  after-History (approve_entry user id) t h =
      left-History _ t (Step-Keeps _ λ t u e run. approved_entry user id e run) h
  after-History (post_entry user id) t h =
      left-History _ t (Step-Keeps _ λ t u e run. posted_entry user id e run) h
  after-History (reverse_entry user id date) t h =
      left-History _ t (Step-Keeps _ λ t u e run. reversed_entry user id date e run) h
  after-History (create_quotation user dto) t h =
      left-History _ t (Sales.quotation_created-Keeps History-Books user dto) h
  after-History (create_sales_order user dto) t h =
      left-History _ t (Sales.order_created-Keeps History-Books user dto) h
  after-History (create_sales_invoice user dto) t h =
      left-History _ t (Sales.invoice_created-Keeps History-Books user dto) h
  after-History (submit_sales_invoice user id) t h =
      left-History _ t (Sales.invoice_submitted-Keeps History-Books user id) h
  after-History (approve_sales_invoice user id) t h =
      left-History _ t (Sales.invoice_approved-Keeps History-Books user id) h
  after-History (post_sales_invoice user id) t h =
      left-History _ t (Sales.invoice_posted-Keeps History-Books user id) h
  after-History (create_receipt user dto) t h =
      left-History _ t (Sales.receipt_created-Keeps History-Books user dto) h
  after-History (post_receipt user id) t h =
      left-History _ t (Sales.receipt_posted-Keeps History-Books user id) h
  after-History (create_delivery user dto) t h =
      left-History _ t (Sales.delivery_created-Keeps History-Books user dto) h
  after-History (post_delivery user id) t h =
      left-History _ t (Sales.delivery_posted-Keeps History-Books user id) h
  after-History (create_credit_note user dto) t h =
      left-History _ t (Sales.credit_created-Keeps History-Books user dto) h
  after-History (post_credit_note user id) t h =
      left-History _ t (Sales.credit_posted-Keeps History-Books user id) h
  after-History (create_purchase_request user dto) t h =
      left-History _ t (Purchasing.request_created-Keeps History-Books user dto) h
  after-History (approve_purchase_request user id) t h =
      left-History _ t (Purchasing.request_approved-Keeps History-Books user id) h
  after-History (create_purchase_order user dto) t h =
      left-History _ t (Purchasing.order_created-Keeps History-Books user dto) h
  after-History (create_goods_receipt user dto) t h =
      left-History _ t (Purchasing.goods_created-Keeps History-Books user dto) h
  after-History (post_goods_receipt user id) t h =
      left-History _ t (Purchasing.goods_posted-Keeps History-Books user id) h
  after-History (create_supplier_invoice user dto) t h =
      left-History _ t (Purchasing.invoice_created-Keeps History-Books user dto) h
  after-History (submit_supplier_invoice user id) t h =
      left-History _ t (Purchasing.invoice_submitted-Keeps History-Books user id) h
  after-History (approve_supplier_invoice user id) t h =
      left-History _ t (Purchasing.invoice_approved-Keeps History-Books user id) h
  after-History (post_supplier_invoice user id) t h =
      left-History _ t (Purchasing.invoice_posted-Keeps History-Books user id) h
  after-History (create_payment user dto) t h =
      left-History _ t (Purchasing.payment_created-Keeps History-Books user dto) h
  after-History (post_payment user id) t h =
      left-History _ t (Purchasing.payment_posted-Keeps History-Books user id) h
  after-History (create_debit_note user dto) t h =
      left-History _ t (Purchasing.debit_created-Keeps History-Books user dto) h
  after-History (post_debit_note user id) t h =
      left-History _ t (Purchasing.debit_posted-Keeps History-Books user id) h
  after-History (create_stock_count user dto) t h =
      left-History _ t (Stock.count_created-Keeps History-Books user dto) h
  after-History (post_stock_count user id) t h =
      left-History _ t (Stock.count_posted-Keeps History-Books user id) h
  after-History (create_payroll_run user dto) t h =
      left-History _ t (Payroll.run_created-Keeps History-Books user dto) h
  after-History (approve_payroll_run user id) t h =
      left-History _ t (Payroll.run_approved-Keeps History-Books user id) h
  after-History (post_payroll_run user id) t h =
      left-History _ t (Payroll.run_posted-Keeps History-Books user id) h
  after-History (create_asset user dto) t h =
      left-History _ t (Assets.asset_created-Keeps History-Books user dto) h
  after-History (depreciate user company cutoff) t h =
      left-History _ t (Assets.depreciation_run-Keeps History-Books user company cutoff) h
  after-History (record_trade user dto) t h =
      left-History _ t (Consolidation.trade_recorded-Keeps History-Books user dto) h
  after-History (match_trade user id entry) t h =
      left-History _ t (Consolidation.trade_matched-Keeps History-Books user id entry) h
  after-History (create_consolidation collates user dto) t h =
      left-History _ t (Consolidation.run_created-Keeps History-Books collates user dto) h
  after-History (finalize_consolidation user id) t h =
      left-History _ t (Consolidation.run_finalized-Keeps History-Books user id) h
  after-History (load_statement user dto) t h =
      left-History _ t (Banking.statement_imported-Keeps History-Books user dto) h
  after-History (approve_bank_match user id) t h =
      (Banking.match_approved-Stays History-Books user id).at t h
  after-History (ignore_bank_line user id) t h =
      left-History _ t (Banking.line_ignored-Keeps History-Books user id) h

pub Course-History : {s t : Db} → Course s t → History s t
Course-History begin = start
Course-History {s} (request {t} h c) = after-History s c t (Course-History h)
Course-History (elsewhere h j g) = then_step (Course-History h) (Histories.elsewhere j g)

-- After any course of the program that begins reconciled (requests to any of its services in any
-- order, whatever they answer, between changes of tables other than the journal and the
-- balances), the balance rows total, over every selection of balance keys and on both sides,
-- what the lines of the posted and reversed entries total.
pub Course-Reconciled : {s t : Db} → Course s t → Reconciled s → Reconciled t
Course-Reconciled h r = History-Reconciled (Course-History h) r

-- No course of the program (requests to any of its services in any order, whatever they answer,
-- between changes of tables other than the journal and the balances) loses a journal entry or
-- changes what it says: it stays under its id with all but its status and posting time, and its
-- status moves only along draft, submitted, approved, posted, reversed.
pub Course-Preserves : {s t : Db} → Course s t → Preserves s.journal_entries t.journal_entries
Course-Preserves h = History-Preserves (Course-History h)
