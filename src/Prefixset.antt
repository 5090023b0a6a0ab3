-- ===== src/Prefixset.antt =====
-- The prefix sets of prefixset.
pub mod Lines
pub mod Sets
pub mod Rendered
pub mod Texts
pub mod Roundtrip
mod Tests
