-- ===== src/LogParser.antt =====
-- pkg/parselog: parsed log lines, the parser of one line, and the consumers that are fed with them.
-- The regular expressions and `time.Parse` are parameters; `none` is no match, or an error.
pub mod ParsedData
pub mod BaseParser
pub mod Prefix
pub mod Feeds
pub mod Addresses
pub mod Encrypted
pub mod Passwords
pub mod HbaLines
pub mod Readiness
mod Tests
