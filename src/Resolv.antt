-- ===== src/Resolv.antt =====
-- The program resolv: one address of a host.
pub mod Family
pub mod Lookup
pub mod Chosen
mod Tests
