-- ===== src/Tests.antt =====
-- The theorems at concrete inputs, and runs of the model.
mod Core
mod Lease
mod Machine
mod Records
mod Pool
mod Guards
mod Planner
mod Cli
mod IdleStop
mod Rank
mod Credentials
mod Host
mod Publish
mod Maintenance
