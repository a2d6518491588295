-- ===== src/Tests.antt =====
-- Runs at concrete inputs, and each theorem at an input that meets its hypotheses.
pub mod Fixture
pub mod Accounting
pub mod Inventory
pub mod Reports
mod Consolidation
pub mod Banking
mod Guards
pub mod Bills
mod Purchasing
pub mod Sales
mod Credits
mod Operations
mod Dispatch
mod Assets
mod Courses
