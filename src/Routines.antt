-- ===== src/Routines.antt =====
-- Scheduled routines (src/routines).
pub mod Schedule
