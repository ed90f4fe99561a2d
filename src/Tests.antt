-- ===== src/Tests.antt =====
-- The theorems at concrete data.
pub mod Data
pub mod Text
pub mod Store
pub mod Analysis
pub mod Diff
pub mod Watcher
pub mod Resolver
pub mod Server
pub mod Archlint
pub mod Indexer
