-- ===== src/Core.antt =====
-- src/core: labels, identifiers and provider names, the keys by which everything else is stored.
pub mod Labels
pub mod Providers
