-- ===== src/Scheduler.antt =====
-- One backup run (internal/scheduler/job.go): mirror, archive, store at each destination, prune, and
-- the record of it in the database.
pub mod World
pub mod Job
pub mod Outcomes
pub mod Frames
pub mod Sound
pub mod Executions
pub mod Records
pub mod Finishes
pub mod Cron
pub mod Jobs
pub mod Racing
pub mod Zip
pub mod Locking
pub mod Exclusion
pub mod Unlocking
pub mod Zipped
pub mod Kept
