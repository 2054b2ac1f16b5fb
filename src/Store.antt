-- ===== src/Store.antt =====
-- storage/sqlite.go
pub mod Db
pub mod Laws
pub mod Submit
pub mod Resolve
pub mod Claim
pub mod Batch
pub mod Cancel
pub mod Transition
pub mod Wf
pub mod Invariant
pub mod Cleanup
pub mod Run
pub mod Overlap
pub mod Lifecycle
