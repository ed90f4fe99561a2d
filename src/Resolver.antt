-- ===== src/Resolver.antt =====
-- pkg/resolver: from references to edges.
pub mod Index
pub mod Types
pub mod Refs
pub mod Family
