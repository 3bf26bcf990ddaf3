-- ===== src/Runner.antt =====
-- internal/runner: the execution graph's nodes and the locks of a run.
pub mod Nodes
pub mod Locks
mod Tests
