-- ===== src/Probe.antt =====
-- The program probe.
pub mod Program
pub mod Reported
mod Tests
