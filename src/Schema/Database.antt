-- ===== src/Schema/Database.antt =====
-- The state of a transaction: every table, the supply of ids, and the day on the server's clock.
use advanced_accountancy.Prelude.{suc, List, []}
use advanced_accountancy.Tx.{ok, Tx}
use advanced_accountancy.Schema.Units.{Uuid, Day}
use advanced_accountancy.Schema.Setup.{
  ChartOfAccount, PostingRule, FiscalYear, AccountingPeriod, DocumentNumberSequence, TaxRate,
  BankAccount, Company,
}
use advanced_accountancy.Schema.Journal.{JournalEntry, GlAccountBalance}
use advanced_accountancy.Schema.Stock.{StockMove, StockBalance}
use advanced_accountancy.Schema.Sales.{
  SalesInvoice, CustomerReceipt, Quotation, SalesOrder, CreditNote,
}
use advanced_accountancy.Schema.Purchasing.{
  PurchaseRequest, PurchaseOrder, GoodsReceipt, SupplierInvoice, SupplierPayment, DebitNote,
}
use advanced_accountancy.Schema.Warehouse.{Delivery, StockCount}
use advanced_accountancy.Schema.Payroll.{Employee, SalaryStructure, PayrollRun}
use advanced_accountancy.Schema.Assets.{FixedAsset, DepreciationSchedule}
use advanced_accountancy.Schema.Consolidation.{
  ExchangeRate, IntercompanyTransaction, ConsolidationRun, ConsolidatedLine,
}
use advanced_accountancy.Schema.Banking.{Party, BankStatement, BankStatementLine}
use advanced_accountancy.Schema.Access.{UserCompanyAccess, RolePermission}
use advanced_accountancy.Schema.Audit.{AuditLog}

pub record Db : Type 0 where
  pub companies : List Company
  pub chart_of_accounts : List ChartOfAccount
  pub posting_rules : List PostingRule
  pub fiscal_years : List FiscalYear
  pub accounting_periods : List AccountingPeriod
  pub sequences : List DocumentNumberSequence
  pub tax_rates : List TaxRate
  pub bank_accounts : List BankAccount
  pub journal_entries : List JournalEntry
  pub gl_balances : List GlAccountBalance
  pub stock_moves : List StockMove
  pub stock_balances : List StockBalance
  pub sales_invoices : List SalesInvoice
  pub customer_receipts : List CustomerReceipt
  pub deliveries : List Delivery
  pub stock_counts : List StockCount
  pub employees : List Employee
  pub salary_structures : List SalaryStructure
  pub payroll_runs : List PayrollRun
  pub fixed_assets : List FixedAsset
  pub depreciation_schedules : List DepreciationSchedule
  pub quotations : List Quotation
  pub sales_orders : List SalesOrder
  pub credit_notes : List CreditNote
  pub purchase_requests : List PurchaseRequest
  pub purchase_orders : List PurchaseOrder
  pub goods_receipts : List GoodsReceipt
  pub supplier_invoices : List SupplierInvoice
  pub supplier_payments : List SupplierPayment
  pub debit_notes : List DebitNote
  pub exchange_rates : List ExchangeRate
  pub intercompany_transactions : List IntercompanyTransaction
  pub consolidation_runs : List ConsolidationRun
  pub consolidated_lines : List ConsolidatedLine
  pub customers : List Party
  pub suppliers : List Party
  pub bank_statements : List BankStatement
  pub bank_statement_lines : List BankStatementLine
  pub user_company_access : List UserCompanyAccess
  pub role_permissions : List RolePermission
  pub audit_logs : List AuditLog
  pub next_id : Uuid
  pub now : Day

abbrev pub empty_db : Db
empty_db = record {
  companies = [];
  chart_of_accounts = [];
  posting_rules = [];
  fiscal_years = [];
  accounting_periods = [];
  sequences = [];
  tax_rates = [];
  bank_accounts = [];
  journal_entries = [];
  gl_balances = [];
  stock_moves = [];
  stock_balances = [];
  sales_invoices = [];
  customer_receipts = [];
  deliveries = [];
  stock_counts = [];
  employees = [];
  salary_structures = [];
  payroll_runs = [];
  fixed_assets = [];
  depreciation_schedules = [];
  quotations = [];
  sales_orders = [];
  credit_notes = [];
  purchase_requests = [];
  purchase_orders = [];
  goods_receipts = [];
  supplier_invoices = [];
  supplier_payments = [];
  debit_notes = [];
  exchange_rates = [];
  intercompany_transactions = [];
  consolidation_runs = [];
  consolidated_lines = [];
  customers = [];
  suppliers = [];
  bank_statements = [];
  bank_statement_lines = [];
  user_company_access = [];
  role_permissions = [];
  audit_logs = [];
  next_id = 1;
  now = 738000;
}

-- The id of a new row.
abbrev pub fresh : Tx Db Uuid
fresh s = ok (s.next_id, record s { next_id = suc s.next_id })
