-- ===== src/Scheduler.antt =====
-- internal/scheduler: the cron jobs, when they are due, and the poll that runs them.
mod Tests
pub mod Schedule
pub mod Jobs
pub mod Polling
