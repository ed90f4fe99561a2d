-- ===== src/Lang.antt =====
-- pkg/lang: what the plugins of the languages hand to the resolver, and which plugin takes a file.
pub mod Ir
pub mod Registry
