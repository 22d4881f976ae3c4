-- ===== src/Schedule.antt =====
-- The cron schedules of the collector: the targets, the commands for them, and the schedule map.
pub mod Targets
pub mod Commands
pub mod Crons
pub mod Complete
pub mod Counts
mod Tests
