-- ===== src/HbaRules.antt =====
-- pkg/hbarules: the rules of pg_hba.conf, the lines that log entries use, and the unused ones.
-- A `*hbaLine` is a number, and the objects stand in a heap: one line object is shared by all the
-- databases and users that its rule names. The packages `net` and `regexp` are a parameter.
pub mod Defs
pub mod Validate
pub mod Unused
pub mod Effect
pub mod Parse
pub mod Files
pub mod Scanned
mod Tests
