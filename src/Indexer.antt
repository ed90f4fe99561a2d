-- ===== src/Indexer.antt =====
-- pkg/indexer: keeping the stored graph up to date with the files.
pub mod Diff
pub mod Fresh
