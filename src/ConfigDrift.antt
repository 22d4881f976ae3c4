-- ===== src/ConfigDrift.antt =====
-- The comparison of PostgreSQL settings with a baseline, and the report on it for the fleet.
pub mod Baseline
pub mod Values
pub mod Rows
pub mod Servers
pub mod Snapshots
pub mod Totals
pub mod HostView
pub mod HostFleet
mod Tests
