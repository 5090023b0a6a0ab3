-- ===== src/Windows.antt =====
-- The program route on Windows: notifications of route changes.
pub mod Rows
pub mod Handler
pub mod Handled
pub mod Counted
pub mod Run
mod Tests
