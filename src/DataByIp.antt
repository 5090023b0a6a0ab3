-- ===== src/DataByIp.antt =====
-- The program ssgodatabyip: traffic by address from the log of a proxy.
pub mod Totals
pub mod Charge
pub mod Report
pub mod Sorted
pub mod Reader
pub mod Lines
pub mod Stream
pub mod Delivered
pub mod Contract
mod Tests
