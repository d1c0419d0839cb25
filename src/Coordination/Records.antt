-- ===== src/Coordination/Records.antt =====
-- Versioned records (src/coordination/redis-store.js): `casPutJsonRecord`, the only shared mutation
-- of records, as an optimistic transaction whose steps other clients interleave with.
pub mod Server
pub mod Cas
pub mod Commit
pub mod Races
pub mod Memory
