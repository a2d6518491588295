-- ===== src/Schema.antt =====
-- The tables of backend/prisma/schema.prisma that the modelled services read and write, as one
-- tenant sees them under row-level security.
mod Units
mod Setup
mod Journal
mod Stock
mod Sales
mod Purchasing
mod Warehouse
mod Payroll
mod Assets
mod Consolidation
mod Banking
mod Access
mod Audit
mod Database
pub mod Doubles
pub mod Rounding
pub mod Closeness
unfoldable pub use Units.*
unfoldable pub use Setup.*
unfoldable pub use Journal.*
unfoldable pub use Stock.*
unfoldable pub use Sales.*
unfoldable pub use Purchasing.*
unfoldable pub use Warehouse.*
unfoldable pub use Payroll.*
unfoldable pub use Assets.*
unfoldable pub use Consolidation.*
unfoldable pub use Banking.*
unfoldable pub use Access.*
unfoldable pub use Audit.*
unfoldable pub use Database.*
