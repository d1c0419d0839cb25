-- ===== src/Coordination.antt =====
-- src/coordination: the Redis server, its keys, credential leases and versioned records.
pub mod Redis
pub mod Keys
pub mod Lease
pub mod Records
