-- ===== src/Operations/Calls.antt =====
-- The requests of the services that change tables (the methods that the controllers under backend/src
-- call), and what each of them leaves.
use advanced_accountancy.Prelude.{Bool, String, Option}
use advanced_accountancy.Tx.{Tx}
use advanced_accountancy.Tx.Requests.{in_transaction}
use advanced_accountancy.Schema.{Uuid, Day, PeriodStatus, Db}
use advanced_accountancy.Accounting.Provisioning
use advanced_accountancy.Accounting.FiscalPeriods
use advanced_accountancy.Accounting.JournalEntries
use advanced_accountancy.Accounting.JournalEntries.{CreateJournalEntryDto}
use advanced_accountancy.Sales.Quotations
use advanced_accountancy.Sales.Quotations.{CreateQuotationDto}
use advanced_accountancy.Sales.Orders as SalesOrders
use advanced_accountancy.Sales.Orders.{CreateSalesOrderDto}
use advanced_accountancy.Sales.Invoices
use advanced_accountancy.Sales.Invoices.{CreateSalesInvoiceDto}
use advanced_accountancy.Sales.Receipts
use advanced_accountancy.Sales.Receipts.{CreateCustomerReceiptDto}
use advanced_accountancy.Sales.Deliveries
use advanced_accountancy.Sales.Deliveries.{CreateDeliveryDto}
use advanced_accountancy.Sales.CreditNotes
use advanced_accountancy.Sales.CreditNotes.{CreateCreditNoteDto}
use advanced_accountancy.Purchasing.Requests
use advanced_accountancy.Purchasing.Requests.{CreatePurchaseRequestDto}
use advanced_accountancy.Purchasing.Orders as PurchaseOrders
use advanced_accountancy.Purchasing.Orders.{CreatePurchaseOrderDto}
use advanced_accountancy.Purchasing.GoodsReceipts
use advanced_accountancy.Purchasing.GoodsReceipts.{CreateGoodsReceiptDto}
use advanced_accountancy.Purchasing.SupplierInvoices
use advanced_accountancy.Purchasing.SupplierInvoices.{CreateSupplierInvoiceDto}
use advanced_accountancy.Purchasing.SupplierPayments
use advanced_accountancy.Purchasing.SupplierPayments.{CreateSupplierPaymentDto}
use advanced_accountancy.Purchasing.DebitNotes
use advanced_accountancy.Purchasing.DebitNotes.{CreateDebitNoteDto}
use advanced_accountancy.Inventory.StockCounts
use advanced_accountancy.Inventory.StockCounts.{CreateStockCountDto}
use advanced_accountancy.Payroll
use advanced_accountancy.Payroll.{CreatePayrollRunDto}
use advanced_accountancy.Assets
use advanced_accountancy.Assets.{CreateFixedAssetDto}
use advanced_accountancy.Consolidation.Intercompany
use advanced_accountancy.Consolidation.Intercompany.{RecordIntercompanyTransactionDto}
use advanced_accountancy.Consolidation.Runs
use advanced_accountancy.Consolidation.Runs.{CreateConsolidationRunDto}
use advanced_accountancy.Banking.Statements
use advanced_accountancy.Banking.Statements.{ImportBankStatementDto}
use advanced_accountancy.Banking.Approvals

pub data Call : Type 0 where
  -- Companies of a group, their books and their years.
  provision_company : Uuid → String → Call
  open_next_year : Uuid → Uuid → Call
  change_period_status : Uuid → Uuid → PeriodStatus → Call
  -- Entries by hand.
  create_entry : Uuid → CreateJournalEntryDto → Call
  submit_entry : Uuid → Uuid → Call
  approve_entry : Uuid → Uuid → Call
  post_entry : Uuid → Uuid → Call
  reverse_entry : Uuid → Uuid → Option Day → Call
  -- Sales.
  create_quotation : Uuid → CreateQuotationDto → Call
  create_sales_order : Uuid → CreateSalesOrderDto → Call
  create_sales_invoice : Uuid → CreateSalesInvoiceDto → Call
  submit_sales_invoice : Uuid → Uuid → Call
  approve_sales_invoice : Uuid → Uuid → Call
  post_sales_invoice : Uuid → Uuid → Call
  create_receipt : Uuid → CreateCustomerReceiptDto → Call
  post_receipt : Uuid → Uuid → Call
  create_delivery : Uuid → CreateDeliveryDto → Call
  post_delivery : Uuid → Uuid → Call
  create_credit_note : Uuid → CreateCreditNoteDto → Call
  post_credit_note : Uuid → Uuid → Call
  -- Purchasing.
  create_purchase_request : Uuid → CreatePurchaseRequestDto → Call
  approve_purchase_request : Uuid → Uuid → Call
  create_purchase_order : Uuid → CreatePurchaseOrderDto → Call
  create_goods_receipt : Uuid → CreateGoodsReceiptDto → Call
  post_goods_receipt : Uuid → Uuid → Call
  create_supplier_invoice : Uuid → CreateSupplierInvoiceDto → Call
  submit_supplier_invoice : Uuid → Uuid → Call
  approve_supplier_invoice : Uuid → Uuid → Call
  post_supplier_invoice : Uuid → Uuid → Call
  create_payment : Uuid → CreateSupplierPaymentDto → Call
  post_payment : Uuid → Uuid → Call
  create_debit_note : Uuid → CreateDebitNoteDto → Call
  post_debit_note : Uuid → Uuid → Call
  -- Stock, payroll and assets.
  create_stock_count : Uuid → CreateStockCountDto → Call
  post_stock_count : Uuid → Uuid → Call
  create_payroll_run : Uuid → CreatePayrollRunDto → Call
  approve_payroll_run : Uuid → Uuid → Call
  post_payroll_run : Uuid → Uuid → Call
  create_asset : Uuid → CreateFixedAssetDto → Call
  depreciate : Uuid → Uuid → Day → Call
  -- Groups and banks.
  record_trade : Uuid → RecordIntercompanyTransactionDto → Call
  match_trade : Uuid → Uuid → Uuid → Call
  create_consolidation : (String → String → Bool) → Uuid → CreateConsolidationRunDto → Call
  finalize_consolidation : Uuid → Uuid → Call
  load_statement : Uuid → ImportBankStatementDto → Call
  approve_bank_match : Uuid → Uuid → Call
  ignore_bank_line : Uuid → Uuid → Call

-- The tables that a transaction leaves: its own where it commits, or the old ones.
abbrev pub left : {A : Type 0} → Tx Db A → Db → Db
left m s = (in_transaction m s).1

-- The tables after a request, whatever it answers.
unfoldable pub after : Call → Db → Db
after (provision_company company currency) s = left (Provisioning.provision company currency) s
after (open_next_year user company) s = left (FiscalPeriods.create_next_fiscal_year user company) s
after (change_period_status user period status) s =
    left (FiscalPeriods.set_period_status user period status) s
after (create_entry user dto) s = left (JournalEntries.create user dto) s
after (submit_entry user id) s = left (JournalEntries.submit user id) s
after (approve_entry user id) s = left (JournalEntries.approve user id) s
after (post_entry user id) s = left (JournalEntries.post user id) s
after (reverse_entry user id date) s = left (JournalEntries.reverse user id date) s
after (create_quotation user dto) s = left (Quotations.create user dto) s
after (create_sales_order user dto) s = left (SalesOrders.create user dto) s
after (create_sales_invoice user dto) s = left (Invoices.create user dto) s
after (submit_sales_invoice user id) s = left (Invoices.submit user id) s
after (approve_sales_invoice user id) s = left (Invoices.approve user id) s
after (post_sales_invoice user id) s = left (Invoices.post user id) s
after (create_receipt user dto) s = left (Receipts.create user dto) s
after (post_receipt user id) s = left (Receipts.post user id) s
after (create_delivery user dto) s = left (Deliveries.create user dto) s
after (post_delivery user id) s = left (Deliveries.post user id) s
after (create_credit_note user dto) s = left (CreditNotes.create user dto) s
after (post_credit_note user id) s = left (CreditNotes.post user id) s
after (create_purchase_request user dto) s = left (Requests.create user dto) s
after (approve_purchase_request user id) s = left (Requests.approve user id) s
after (create_purchase_order user dto) s = left (PurchaseOrders.create user dto) s
after (create_goods_receipt user dto) s = left (GoodsReceipts.create user dto) s
after (post_goods_receipt user id) s = left (GoodsReceipts.post user id) s
after (create_supplier_invoice user dto) s = left (SupplierInvoices.create user dto) s
after (submit_supplier_invoice user id) s = left (SupplierInvoices.submit user id) s
after (approve_supplier_invoice user id) s = left (SupplierInvoices.approve user id) s
after (post_supplier_invoice user id) s = left (SupplierInvoices.post user id) s
after (create_payment user dto) s = left (SupplierPayments.create user dto) s
after (post_payment user id) s = left (SupplierPayments.post user id) s
after (create_debit_note user dto) s = left (DebitNotes.create user dto) s
after (post_debit_note user id) s = left (DebitNotes.post user id) s
after (create_stock_count user dto) s = left (StockCounts.create user dto) s
after (post_stock_count user id) s = left (StockCounts.post user id) s
after (create_payroll_run user dto) s = left (Payroll.create user dto) s
after (approve_payroll_run user id) s = left (Payroll.approve user id) s
after (post_payroll_run user id) s = left (Payroll.post user id) s
after (create_asset user dto) s = left (Assets.create user dto) s
after (depreciate user company cutoff) s = left (Assets.run_depreciation user company cutoff) s
after (record_trade user dto) s = left (Intercompany.create user dto) s
after (match_trade user id entry) s = left (Intercompany.match_entry user id entry) s
after (create_consolidation collates user dto) s = left (Runs.create collates user dto) s
after (finalize_consolidation user id) s = left (Runs.finalize user id) s
after (load_statement user dto) s = left (Statements.import_statement user dto) s
after (approve_bank_match user id) s = (Approvals.approve_match user id s).1
after (ignore_bank_line user id) s = left (Statements.ignore_line user id) s
