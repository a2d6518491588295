-- ===== src/Accounting.antt =====
-- backend/src/accounting: the accounting engine and what stands on it.
pub mod Calendar
pub mod Numbering
pub mod TaxRates
pub mod FiscalPeriods
pub mod Engine
pub mod JournalEntries
pub mod Provisioning
pub mod Reports
pub mod Histories
