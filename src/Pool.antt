-- ===== src/Pool.antt =====
-- Usage of the pooled accounts and the choice of the next account (src/pool).
pub mod Usage
pub mod Cycle
pub mod Select
pub mod Account
pub mod NextBest
pub mod Planner
pub mod Rank
pub mod Capacity
