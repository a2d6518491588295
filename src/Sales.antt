-- ===== src/Sales.antt =====
-- backend/src/sales: the documents of a sale that reach the ledger.
pub mod Pricing
pub mod Invoices
pub mod Receipts
pub mod Deliveries
pub mod Quotations
pub mod Orders
pub mod CreditNotes
pub mod Histories
