-- ===== src/Logging.antt =====
-- The package logging.
pub mod Loggers
pub mod Timed
mod Tests
