-- ===== src/Dag.antt =====
-- internal/dag: graphs, and the walk that runs their vertices.
pub mod Graph
pub mod Walk
pub mod Search
mod Tests
