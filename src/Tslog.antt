-- ===== src/Tslog.antt =====
-- The package logging/tslog: a logger with levels, and its attributes.
pub mod Attrs
pub mod Logger
pub mod Texts
pub mod Written
mod Tests
