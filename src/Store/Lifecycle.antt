-- ===== src/Store/Lifecycle.antt =====
-- The store against the life of a job: which states its operations make follow which.
pub mod Moves
pub mod Transitions
pub mod Requests
