-- ===== src/Watcher.antt =====
-- pkg/watcher: file-change events and their batches.
pub mod Debouncer
