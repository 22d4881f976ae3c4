-- ===== src/BackupHistory.antt =====
-- cmd/ciscollector/backuphistory.go and pkg/backuphistory/backuphistory.go: the times of the
-- backups that stand under a path with placeholders, and the dates on which one is missing.
pub mod Defs
pub mod ParsedTime
pub mod Paths
pub mod RoundTrip
pub mod Gaps
pub mod Walk
pub mod Clock
pub mod Missing
pub mod Reports
mod Tests
