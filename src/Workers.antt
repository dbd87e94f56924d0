-- ===== src/Workers.antt =====
-- The package workers: scheduled jobs that one process of several runs.
pub mod Locker
pub mod Cluster
mod Setup
pub mod Runner
mod Examples
