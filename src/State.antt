-- ===== src/State.antt =====
-- internal/state: the SQLite store of the factory queue.
pub mod Time
pub mod Tables
pub mod Leases
pub mod Items
pub mod Enqueue
pub mod Claim
pub mod Finish
pub mod Phases
pub mod Approvals
pub mod Pending
pub mod Queue
pub mod Reads
pub mod Status
pub mod Cursors
pub mod PlanLedgers
mod Tests
