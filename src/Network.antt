-- ===== src/Network.antt =====
-- The routes of the accounts' traffic (src/network).
pub mod Egress
