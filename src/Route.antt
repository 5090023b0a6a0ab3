-- ===== src/Route.antt =====
-- The routing sockets of route/bsdroute.
pub mod Align
pub mod Flags
pub mod Names
pub mod Shown
pub mod Joined
pub mod Texts
pub mod Types
pub mod Addrs
pub mod Laid
pub mod InBounds
mod Tests
pub mod Messages
pub mod Attrs
pub mod Meant
pub mod Shows
pub mod Listed
pub mod Sysctl
pub mod Sockets
pub mod Opened
pub mod Start
pub mod Started
pub mod Logged
pub mod Framed
pub mod Filtered
mod Runs
mod Samples
mod Launched
