-- ===== src/Store/Invariant.antt =====
-- What holds of the store's tables between two transactions of storage/sqlite.go.
pub mod Start
pub mod Updates
pub mod Cancels
pub mod Ends
pub mod Users
pub mod Resolves
pub mod Claims
pub mod Rounds
pub mod Submits
pub mod Inserts
pub mod Batches
pub mod Scans
pub mod Outcomes
pub mod Reports
