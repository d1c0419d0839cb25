-- ===== src/Pool/Planner.antt =====
-- The planner that spreads agents over the pooled accounts (src/pool/weighted-planner.js).
pub mod Weights
pub mod Candidates
pub mod Demands
pub mod Loop
pub mod Report
pub mod Plan
