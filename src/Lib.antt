-- ===== src/Lib.antt =====
-- The core logic of the collector and of its main server, and what makes it correct.
--
-- The collector scans PostgreSQL servers and posts what it finds to a main server; its parts work
-- on values in memory around queries, files and HTTP calls. The parts modelled here:
--
--   HbaScanner   postgres/hbascanner/hbascanner.go: `HBAScanner` runs nine SQL checks, and when one
--                fails runs nine checks on the lines of pg_hba.conf. A check is a function of the
--                rows and their line numbers; `none` is a panic of an index.
--   RetryQueue   pkg/mainserverclient/retry.go and errors.go: the queue of posts that failed.
--                `Flush` copies the items under the lock, posts without it, and writes back under
--                it; its two locked sections are operations of their own (RetryQueue/Defs).
--                RetryQueue/Histories runs sequences of calls on it.
--   HbaRules     pkg/hbarules: `ParseHBAFileRules` builds the table of the rules (Parse),
--                `ValidateEntry` counts a log entry for a line, `GetUnusedLines` reports the lines
--                with no entry (Defs). A line object stands in a heap, since databases share it.
--                `ScanHBAFile` makes the rules from the lines of the file (Files).
--   LogParser    pkg/parselog/logline_prefix_parser.go and parse.go: the parser of a line, the
--                getters of what it finds, and four consumers that are fed line by line; one of
--                them drives HbaRules, two fill the sets of Utils. LogParser/Prefix is
--                dynamic_parser.go: the expression and the group indices of a log_line_prefix.
--                LogParser/Readiness is pkg/logparser: which commands the settings allow.
--   ConfigDrift  postgresconfig/compareconfig.go, pkg/dashboard/service/guc_drift_snapshots.go and
--                host_guc_drift.go: the comparison of settings with a baseline or a first server,
--                the report for all servers, and the view of one host (HostView).
--   Schedule     pkg/postgresdb/connect.go, pkg/config/collector_schedules.go, collector.go and
--                crons.go, pkg/cron/utils.go: from the configuration to the map of cron schedules.
--   BackupHistory  cmd/ciscollector/backuphistory.go and pkg/backuphistory/backuphistory.go: the
--                times of the backups under a path with placeholders (ParsedTime, Paths), and the
--                report of the dates without one (Defs). Its loops step from date to date until a
--                date is met, in the source without a bound; here they are on fuel.
--   CriticalChecks  pkg/dashboard/service/critical_checks.go, critical_checks_resolve.go and
--                guc_extract.go: the status of a critical check by the results of the CIS scan.
--   CronJobs     pkg/cron/cron.go: the wrappers that keep the invocations of a job apart, as states
--                and events of one job.
--   WsHub        cmd/main-server/ws_hub.go: the clients that the dashboard's events go to, as a
--                relation on the states of the hub. A receive of a client's pump during a
--                broadcast is one before or after it, since a broadcast touches a client once.
--   Utils        pkg/utils/types.go and set.go: the containers; strings.go: the chunks of a text.
--   Common       lists, options, texts, maps and sorting, which the parts share.
--
-- In each part Defs, or the file named for the thing, has the definitions, and the files beside it
-- the proofs. A text is the list of its code points; a Go map is an association list, of which no
-- theorem reads the order; `sort.Slice` and `sort.Strings` are insertion sorts; a section under a
-- mutex is one step. Counters are natural numbers: none of them comes near 2^63. The loops
-- run over slices and maps, and are recursion on a list, but for those of BackupHistory between the
-- dates of two backups: their fuel is a number of dates, and enough when it exceeds the days, weeks
-- or months from the oldest backup to the newest.
--
-- Parameters stand for what is outside: the answers of `postFn`, the clock and the context of a
-- flush (`Env`), the packages net and regexp, `time.Parse`, the stored snapshots, the cron
-- library's next two times, and for the backups the dates of `time` (`IsClock` has the facts that
-- are used) and the file system. `regexp.QuoteMeta` is taken to do what its documentation says.
--
-- Not modelled: SQL queries and shell commands (the CIS checks, MySQL, RDS), HTTP handlers, report
-- rendering, the stores, log output, and the texts of errors. `strings.ToLower` is exact for all
-- characters that have an ASCII letter as lower case, and leaves other letters alone.
pub mod BackupHistory
pub mod CriticalChecks
pub mod Common
pub mod HbaScanner
pub mod RetryQueue
pub mod HbaRules
pub mod Utils
pub mod LogParser
pub mod ConfigDrift
pub mod CronJobs
pub mod Schedule
pub mod WsHub
