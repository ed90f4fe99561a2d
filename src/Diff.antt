-- ===== src/Diff.antt =====
-- pkg/diff: from a unified diff to the symbols that it changes.
pub mod Parse
pub mod Ranges
pub mod Mapper
