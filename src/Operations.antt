-- ===== src/Operations.antt =====
-- The requests that change the tables, of every service that is modelled, and what any sequence of
-- them leaves.
pub mod Books
pub mod Stock
pub mod Sales
pub mod Purchasing
pub mod Payroll
pub mod Assets
pub mod Companies
pub mod Consolidation
pub mod Banking
pub mod Calls
pub mod Courses
