-- ===== src/Analysis.antt =====
-- pkg/analysis: the graph in memory and the algorithms over it.
pub mod Graph
pub mod Reach
pub mod DeadCode
pub mod Paths
pub mod Trace
pub mod Neighborhood
pub mod Condense
