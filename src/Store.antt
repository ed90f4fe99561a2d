-- ===== src/Store.antt =====
-- pkg/store: the entities of the graph, and the database that keeps them.
pub mod Types
pub mod Db
pub mod Query
pub mod Files
pub mod Irs
pub mod Counts
