-- ===== src/Stress.antt =====
-- The program tfo/stress.
pub mod Rounds
pub mod Ended
mod Tests
