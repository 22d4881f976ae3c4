-- ===== src/CronJobs.antt =====
-- pkg/cron/cron.go: the wrappers that keep the invocations of a job apart.
pub mod Skip
pub mod Exclusive
pub mod Delay
mod Tests
