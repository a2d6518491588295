-- ===== src/Lib.antt =====
-- A verification library for Advanced-Accountancy, a multi-company accounting and ERP backend in
-- TypeScript on a relational database.
--
-- The program. Every business document ends in one place, the accounting engine
-- (backend/src/accounting/accounting-engine.service.ts): a module hands it an event with amounts, the
-- company's posting rule says which accounts they go to, and the engine writes one posted journal
-- entry and adds its lines to the balance rows that the reports read. Entries by hand go through
-- draft, submitted and approved before they are posted; a posted entry is never changed, only
-- reversed by a mirror entry. A new company gets a starter chart of accounts, starter posting rules
-- and the current fiscal year. The documents of sales, purchasing, stock and payroll have a status, a
-- number of a sequence and, most of them, an entry once they are posted; the stock ledger is the
-- analogue of the journal for goods, valued at a weighted average. A fixed asset has a schedule of
-- depreciation, each row of which posts an event of its own. Reports read the balance rows alone;
-- a consolidation run adds the trial balances of a group's companies, in one currency and with the
-- trade among them eliminated. The lines of a bank statement are matched with open invoices, and an
-- approved match creates and posts the receipt or payment.
--
-- The files, with the code that each one models.
--   Prelude       shared names: tests, lists as tables, integers, sums, text
--   Tx            a database transaction (backend/src/common/prisma/tenant-prisma.service.ts): a step
--                 on the tables that returns a value and new tables, or throws and leaves none.
--                 Tx.Keeps has the rules for invariants, Tx.Ends those for postconditions,
--                 Tx.Commits those for success; Tx.Requests has the requests of several transactions
--   Schema        the tables of backend/prisma/schema.prisma that the modelled code uses, the units
--                 of its numbers, and the state of a transaction (Schema.Database)
--   Tables        findUnique, create and update of a row by its id, for any table, as an interface of
--                 operations and laws; Tables.Increments has the increment of a number of a row,
--                 Tables.Finish the update and the audit row that end a posting
--   Audit         record_audit (backend/src/common/audit/audit.service.ts)
--   Accounting    backend/src/accounting: Numbering (numbering.service.ts), Calendar (the UTC days of
--                 the language's Date), FiscalPeriods (fiscal-periods), TaxRates (tax-rate.util.ts),
--                 Engine (accounting-engine.service.ts), JournalEntries (journal-entries),
--                 Provisioning (company-provisioning.service.ts and its data), Histories, the
--                 sequences of the operations that write the journal, and Reports
--                 (reports/reports.service.ts)
--   Sales         backend/src/sales: Pricing, the loop that five services share, Invoices
--                 (sales-invoices.ts), Receipts (customer-receipts.ts), Deliveries (deliveries.ts),
--                 Quotations (quotations.ts), Orders (sales-orders.ts), CreditNotes
--                 (credit-notes.ts), and Histories, the sequences of the operations on invoices
--   Purchasing    backend/src/purchasing: Requests (purchase-requests.ts), Orders
--                 (purchase-orders.ts), GoodsReceipts (goods-receipts.ts), SupplierInvoices
--                 (supplier-invoices.ts), SupplierPayments (supplier-payments.ts), DebitNotes
--                 (debit-notes.ts), and Histories, the sequences of the operations on invoices
--   Consolidation backend/src/consolidation: Intercompany (intercompany-transactions.ts) and Runs
--                 (consolidation-runs.ts)
--   Banking       backend/src/banking: Matching (matching-engine.service.ts), Statements (the import
--                 and the lines of bank-statements.ts) and Approvals (its approveMatch)
--   Guards        backend/src/common/guards/permissions.guard.ts
--   Inventory     backend/src/inventory: the stock ledger (inventory.service.ts) and StockCounts
--                 (stock-counts.ts)
--   Payroll       backend/src/payroll/payroll-runs.ts
--   Assets        backend/src/assets/fixed-assets.ts
--   Operations    the services together: Calls, one constructor for each request that changes tables,
--                 Books, what a service may do to the journal and its balances, a module of proofs
--                 for each directory of services, and Courses, any sequence of requests
--   Tests         runs at concrete inputs
-- A function of the model has the name of the method or function that it translates, in this
-- language's spelling; a loop of a method is a function of its own, and so is a record that it writes.
--
-- The state. A transaction sees one tenant's rows, as row-level security leaves them. A table is the
-- list of its rows in the order of their creation: findFirst is the first row that matches, or the
-- first in the order that it asks for, findUnique the row with the key, an update the change of the
-- row that it finds, and an update of a row that is not there throws. A new row gets an id that no
-- row has had. The clock is the day of the state. A throw rolls back: it has no state. Concurrent
-- calls are the sequence in which their transactions commit. The trigger that protects posted journal
-- entries is `frozen`. The approval of a bank match is a request of several transactions, each of
-- which commits: where a later one throws, the state that the earlier ones left stays.
--
-- The services that Operations has are all those of the program that write the journal or its
-- balances; what others do is a change elsewhere.
--
-- Parameters. The order of strings in the reports is the database's collation, and that of the
-- consolidated summary is localeCompare: the definitions take them as arguments, and the theorems
-- hold for every one.
--
-- The numbers. Columns of scale 2 are integers of hundredths (Cents), columns of scale 4 of
-- ten-thousandths (Quantity), and what the code computes with is an integer of 10^-8 (Amount), so
-- that every product of two columns is exact; a quotient is kept as a fraction until a column rounds
-- it. round2 computes with doubles (Schema.Doubles): the double nearest to its argument, the double
-- nearest to a hundred times that, and Math.round, a half of which goes up. A column rounds a half
-- away from zero. The binary rounding errors of the other operations, before a number reaches round2
-- or a column, are not modelled.
--
-- Bounds. The digits of a number are taken with one more step than the number, and years are counted
-- up from year 1 with as many steps as the day has number, which is enough because a year has more
-- than one day. The exponent of a double is searched for 100 steps, more than an amount needs. To
-- Date.UTC a number below 100 is a year of the 1900s, so the theorems on fiscal years begin at 100.
--
-- Not modelled: foreign keys and unique constraints other than the keys that are searched and those
-- of the rows that provisioning creates; the limit
-- of 18 digits; the times within a day; the texts of errors (an error is the constructor of its
-- throw); controllers and modules of the framework; the listing of rows; lower case and white
-- space outside ASCII in the names that a bank match compares; the choice among exchange rates of one
-- date, which is that of the first. Of the subsystems, budgets, management information, integrations,
-- master data, the kernel and authentication are not modelled.

pub mod Prelude
pub mod Tx
pub mod Schema
pub mod Tables
pub mod Audit
pub mod Accounting
pub mod Sales
pub mod Purchasing
pub mod Consolidation
pub mod Banking
pub mod Guards
pub mod Payroll
pub mod Assets
pub mod Inventory
pub mod Operations
pub mod Tests
