-- ===== src/Schedule/Commands.antt =====
-- pkg/config/collector_schedules.go and crons.go: the commands of a schedule.
use ciscollector_v.Common.{
  ℕ, Bool, true, ◌&&◌, ◌||◌, Option, none, some, List, [], ◌∷◌, ◌++◌, Text, lit, beq, trim_space,
  to_lower, split, keep, any, map, is_nil, contains_text, if◌then◌else◌,
}
use ciscollector_v.Schedule.Targets.{Postgres, is_text, expand_targets}

-- `MySQL`
pub record MySql : Type 0 where
  pub host : Text
  pub port : Text
  pub user : Text
  pub password : Text
  pub ping_check : Bool
  pub max_idle_conn : ℕ
  pub max_open_conn : ℕ

-- `LogParserCronInput`
pub record LogParserCronInput : Type 0 where
  pub schedule : Text
  pub prefix : Text
  pub log_file : Text
  pub hba_conf_file : Text

-- `Command`
pub record Command : Type 0 where
  pub name : Text
  pub mysql : List MySql
  pub postgres : List Postgres
  pub log_parser : Option LogParserCronInput

-- the errors, without their texts
pub data ScheduleError : Type 0 where
  postgres_config_missing : ScheduleError
  logfile_required : ScheduleError
  hbaconffile_required : ScheduleError
  unsupported_command : Text → ScheduleError
  cron_schedule_required : ℕ → ScheduleError
  cron_schedule_invalid : ℕ → ScheduleError
  cron_too_frequent : ℕ → ScheduleError

-- what a builder comes to: a value, or the error that it returns
pub data Built (V : Type 0) : Type 0 where
  rejected : ScheduleError → Built V
  built : V → Built V

infixl 6 ◌then_build◌
abbrev pub ◌then_build◌ : {V W : Type 0} → Built V → (V → Built W) → Built W
rejected e then_build next = rejected e
built v then_build next = next v

-- `parseScanCommands`
unfoldable pub parse_scan_commands : Text → List Text
unfolding split keep trim_space beq
parse_scan_commands raw = keep is_text (map (λ p. trim_space (to_lower p)) (split b',' raw))

abbrev pub log_parser_scan_tokens : List Text
log_parser_scan_tokens =
    lit "inactive_users" ∷ lit "unique_ip" ∷ lit "unused_lines" ∷ lit "password_leak_scanner" ∷ []

abbrev pub blank_input : LogParserCronInput
blank_input = record { schedule = []; prefix = []; log_file = []; hba_conf_file = [] }

-- `resolveLogParserInput`, for an input that is there
unfoldable pub resolve_input : LogParserCronInput → Bool → Built LogParserCronInput
unfolding trim_space beq
resolve_input lp require_hba =
    if beq (trim_space lp.log_file) []
    then rejected logfile_required
    else if require_hba && beq (trim_space lp.hba_conf_file) []
    then rejected hbaconffile_required
    else built
        (record lp { prefix = if beq (trim_space lp.prefix) [] then lit "%t " else lp.prefix })

-- `resolveLogParserInput`
unfoldable pub resolve_log_parser_input :
    Option LogParserCronInput → Bool → Built LogParserCronInput
unfolding resolve_input
resolve_log_parser_input none require_hba = resolve_input blank_input require_hba
resolve_log_parser_input (some lp) require_hba = resolve_input lp require_hba

abbrev pub plain_command : Text → List Postgres → Command
plain_command name targets = record {
  name = name;
  mysql = [];
  postgres = targets;
  log_parser = none;
}

-- `logParserCommand`
unfoldable pub log_parser_command :
    List Postgres → Option LogParserCronInput → Text → Bool → Built Command
unfolding resolve_log_parser_input
log_parser_command targets lp name require_hba =
    resolve_log_parser_input lp require_hba then_build λ resolved.
    built (record { name = name; mysql = []; postgres = targets; log_parser = some resolved })

-- the `switch` of `CommandsFromPostgres`
unfoldable pub command_for : List Postgres → Option LogParserCronInput → Text → Built Command
unfolding log_parser_command contains_text beq
command_for targets lp cmd =
    if contains_text
      (lit "postgres_cis" ∷ lit "hba_scanner" ∷ lit "guc_drift" ∷ lit "pii_scanner" ∷ []) cmd
    then built (plain_command cmd targets)
    else if contains_text (lit "ssl_check" ∷ lit "ssl_audit" ∷ []) cmd
    then built (plain_command (lit "ssl_check") targets)
    else if contains_text log_parser_scan_tokens cmd
    then log_parser_command targets lp cmd (beq cmd (lit "unused_lines"))
    else rejected (unsupported_command cmd)

-- the loop over the commands
unfoldable pub commands_for :
    List Postgres → Option LogParserCronInput → List Text → Built (List Command)
unfolding command_for
commands_for targets lp [] = built []
commands_for targets lp (cmd ∷ cmds) = command_for targets lp cmd then_build λ c.
    commands_for targets lp cmds then_build λ cs. built (c ∷ cs)

abbrev pub or_default : List Text → List Text
or_default [] = lit "postgres_cis" ∷ lit "hba_scanner" ∷ []
or_default (c ∷ cs) = c ∷ cs

-- `CommandsFromPostgres`
unfoldable pub commands_from_postgres :
    Option Postgres → Text → Option LogParserCronInput → Built (List Command)
unfolding expand_targets parse_scan_commands contains_text commands_for log_parser_command
commands_from_postgres pg scan_commands_raw lp =
    let targets = expand_targets pg in
    let commands = or_default (parse_scan_commands scan_commands_raw) in
    if is_nil targets
    then rejected postgres_config_missing
    else if contains_text commands (lit "all")
    then (log_parser_command targets lp (lit "all") true then_build λ c. built (c ∷ []))
    else commands_for targets lp commands

-- `scanCommandsIncludePii`
unfoldable pub scan_commands_include_pii : Text → Bool
unfolding parse_scan_commands contains_text
scan_commands_include_pii raw =
    let cmds = parse_scan_commands raw in
    contains_text cmds (lit "pii_scanner") || contains_text cmds (lit "all")

-- `scanCommandsIncludeLogParser`
unfoldable pub scan_commands_include_log_parser : Text → Bool
unfolding parse_scan_commands contains_text any
scan_commands_include_log_parser raw =
    let cmds = parse_scan_commands raw in
    contains_text cmds (lit "all") || any (contains_text log_parser_scan_tokens) cmds

-- the loop of `expandAllScheduleCommands`
unfoldable pub log_commands_for :
    List Postgres → Option LogParserCronInput → List Text → Built (List Command)
unfolding log_parser_command beq
log_commands_for targets lp [] = built []
log_commands_for targets lp (name ∷ names) =
    log_parser_command targets lp name (beq name (lit "unused_lines")) then_build λ c.
    log_commands_for targets lp names then_build λ cs. built (c ∷ cs)

-- the three lists that `expandAllScheduleCommands` and `partitionScheduledCommands` return
pub record Parts : Type 0 where
  pub main : List Command
  pub pii : List Command
  pub log : List Command

-- `expandAllScheduleCommands`
unfoldable pub expand_all_schedule_commands :
    Option Postgres → Option LogParserCronInput → Built Parts
unfolding expand_targets log_commands_for
expand_all_schedule_commands pg lp =
    let targets = expand_targets pg in
    if is_nil targets
    then rejected postgres_config_missing
    else (log_commands_for targets lp log_parser_scan_tokens then_build λ log. built (record {
      main = plain_command (lit "all_core") targets ∷ [];
      pii = plain_command (lit "pii_scanner") targets ∷ [];
      log = log;
    }))

-- `isLogParserRootCommand`
unfoldable pub is_log_parser_root_command : Text → Bool
unfolding contains_text
is_log_parser_root_command name = contains_text log_parser_scan_tokens name

-- the `switch` of `partitionScheduledCommands`
unfoldable pub file_command : Command → Parts → Parts
unfolding beq is_log_parser_root_command
file_command cmd p =
    if beq cmd.name (lit "pii_scanner")
    then record p { pii = p.pii ++ cmd ∷ [] }
    else if is_log_parser_root_command cmd.name
    then record p { log = p.log ++ cmd ∷ [] }
    else record p { main = p.main ++ cmd ∷ [] }

unfoldable pub file_commands : List Command → Parts → Parts
unfolding file_command
file_commands [] p = p
file_commands (cmd ∷ cmds) p = file_commands cmds (file_command cmd p)

-- `partitionScheduledCommands`
unfoldable pub partition_scheduled_commands : List Command → Parts
unfolding file_commands
partition_scheduled_commands cmds = file_commands cmds (record { main = []; pii = []; log = [] })
