-- ===== src/Banking.antt =====
-- backend/src/banking: the lines of a bank's statement, and the invoices that they pay.
pub mod Matching
pub mod Statements
pub mod Approvals
