-- ===== src/HbaScanner.antt =====
-- postgres/hbascanner/hbascanner.go: the nine checks of pg_hba.conf that work on the file.
-- `none` is a run-time panic: the code indexes the fields of a row without testing their number.
-- The constant `Procedure` texts and the printing to the terminal are left out.
pub mod Defs
pub mod Laws
pub mod Run
mod Tests
