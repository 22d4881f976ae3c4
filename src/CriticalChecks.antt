-- ===== src/CriticalChecks.antt =====
-- pkg/dashboard/service/critical_checks.go, critical_checks_resolve.go and guc_extract.go: the
-- status of a critical check, from a CIS result that was left to a manual check.
pub mod Settings
pub mod Resolve
pub mod Laws
pub mod Statuses
pub mod Find
pub mod Chosen
mod Tests
