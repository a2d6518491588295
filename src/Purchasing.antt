-- ===== src/Purchasing.antt =====
-- backend/src/purchasing: from a request to a payment.
pub mod Requests
pub mod Orders
pub mod GoodsReceipts
pub mod SupplierInvoices
pub mod SupplierPayments
pub mod DebitNotes
pub mod Histories
