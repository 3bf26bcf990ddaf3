-- ===== src/Plan.antt =====
-- internal/plan: documents, ledgers and the selection of documents.
pub mod Types
pub mod Waves
pub mod Ledgers
pub mod Status
mod Tests
