-- ===== src/Entry.antt =====
-- The flags and the logger of route/cmd/route, and the program on other systems.
pub mod Flags
pub mod Configured
mod Tests
