-- ===== src/Job.antt =====
-- jobs/jobdef.go
pub mod Status
pub mod Def
pub mod Lifecycle
pub mod Names
pub mod ArraySpec
pub mod Quantities
