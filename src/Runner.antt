-- ===== src/Runner.antt =====
-- The runners, runner/
pub mod AfterOk
pub mod Slurm
pub mod Simple
