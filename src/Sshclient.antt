-- ===== src/Sshclient.antt =====
-- The program sshclient.
pub mod Program
pub mod Verified
mod Tests
