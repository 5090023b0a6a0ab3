-- ===== src/Cache.antt =====
-- cache/cache.go: the cache of entries that expire, its heap, its operations and their proofs.
pub mod Store
pub mod Links
pub mod Spec
pub mod Order
pub mod Distinct
pub mod Nodes
pub mod Chain
pub mod Invariant
pub mod Detach
pub mod Place
pub mod Remove
pub mod Find
pub mod Meaning
pub mod Prune
pub mod Pending
pub mod Create
pub mod Insert
pub mod FromHead
pub mod FromTail
pub mod Read
pub mod Start
pub mod Iterate
pub mod Ends
pub mod After
pub mod History
pub mod Ops
pub mod Tests
pub mod Examples
