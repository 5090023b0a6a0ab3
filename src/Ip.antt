-- ===== src/Ip.antt =====
-- The helpers on addresses of ip.
pub mod Endpoint
pub mod Netip
pub mod Equal
mod Tests
