-- ===== src/Targets.antt =====
-- src/targets: what launches and supervises the tools that use the credentials.
pub mod MachineLease
pub mod IdleStop
