-- ===== src/Consolidation.antt =====
-- backend/src/consolidation: the groups of companies.
pub mod Intercompany
pub mod Runs
