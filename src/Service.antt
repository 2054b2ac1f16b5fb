-- ===== src/Service.antt =====
-- service/service.go
pub mod Deps
pub mod Removal
pub mod Archive
pub mod Access
pub mod Submission
