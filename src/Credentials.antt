-- ===== src/Credentials.antt =====
-- The logins of the Claude provider: src/credentials/claude-bundle.js, claude-native.js and
-- claude-maintenance.js, and src/coordination/login-publish.js.
pub mod Bundle
pub mod Derive
pub mod Replacement
pub mod Store
pub mod SyncBack
pub mod Publish
pub mod Maintenance
