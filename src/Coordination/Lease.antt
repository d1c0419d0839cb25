-- ===== src/Coordination/Lease.antt =====
-- Credential leases (src/coordination/redis-credential-lease.js): the scripts that run on the
-- server, and the handle through which one process acquires, renews, recovers and releases.
pub mod Scripts
pub mod Handle
pub mod Ownership
pub mod Calls
pub mod Exclusion
pub mod Mutex
pub mod Behaviour
pub mod Grants
