-- ===== src/LogParser/Readiness.antt =====
-- pkg/logparser: the report of which log parser commands the settings of a server allow, and the
-- checks at the start of the commands themselves.
pub mod Agree
mod Tests
use ciscollector_v.Common.{
  ℕ, zero, suc, ◌+◌, Bool, true, false, not, ◌&&◌, ◌||◌, ◌==◌, ltb, Option, none, some, List, [],
  ◌∷◌, ◌++◌, Text, lit, beq, contains, contains_text, trim_space, is_nil, length, count, keep, map,
  join, if◌then◌else◌,
}
use ciscollector_v.Common.Sorting.{sort_by}
use ciscollector_v.LogParser.Feeds.{PgSettings}
use ciscollector_v.HbaRules.Defs.{Net, HbaFileRule}
use ciscollector_v.HbaRules.Parse.{HbaFileRules, parse_hba_file_rules}
use ciscollector_v.HbaRules.Files.{Sources, scan_hba_file}

-- `LogParserCMD_...`
abbrev pub unique_ips : Text
unique_ips = lit "unique_ip"

abbrev pub inactive_user : Text
inactive_user = lit "inactive_users"

abbrev pub hba_unused_lines : Text
hba_unused_lines = lit "unused_lines"

abbrev pub sql_injection_scan : Text
sql_injection_scan = lit "sql_injection_scan"

abbrev pub password_leak_scanner : Text
password_leak_scanner = lit "password_leak_scanner"

abbrev pub default_log_parser_commands : List Text
default_log_parser_commands =
    inactive_user ∷ unique_ips ∷ hba_unused_lines ∷ password_leak_scanner ∷ []

abbrev pub cis_log_line_prefix_tokens : List Text
cis_log_line_prefix_tokens =
    lit "%m" ∷ lit "%p" ∷ lit "%l" ∷ lit "%d" ∷ lit "%u" ∷ lit "%a" ∷ lit "%h" ∷ []

-- the commands of `CommandList`, in its order
abbrev pub command_list : List Text
command_list =
    lit "all"
    ∷ lit "postgres_cis"
    ∷ lit "hba_scanner"
    ∷ lit "pii_scanner"
    ∷ lit "create_postgresconfig"
    ∷ inactive_user
    ∷ unique_ips
    ∷ hba_unused_lines
    ∷ lit "password_manager"
    ∷ password_leak_scanner
    ∷ lit "aws_rds"
    ∷ lit "aws_aurora"
    ∷ lit "mysql"
    ∷ lit "transaction_wraparound"
    ∷ lit "ssl_check"
    ∷ lit "config_auditing"
    ∷ lit "compare_config"
    ∷ lit "backup_audit_tool"
    ∷ lit "exit"
    ∷ []

-- "pass", "partial" and "fail"
pub data Verdict : Type 0 where
  pass : Verdict
  partial : Verdict
  fail : Verdict

unfoldable pub is_pass : Verdict → Bool
is_pass Verdict.pass = true
is_pass Verdict.partial = false
is_pass Verdict.fail = false

unfoldable pub is_fail : Verdict → Bool
is_fail Verdict.fail = true
is_fail Verdict.pass = false
is_fail Verdict.partial = false

-- `evaluatePrefixCIS`, on a trimmed prefix
unfoldable pub prefix_verdict : Text → Verdict
unfolding contains count beq
prefix_verdict prefix =
    let missing = count (λ tok. not (contains prefix tok)) cis_log_line_prefix_tokens in
    if beq prefix []
    then Verdict.fail
    else if missing == 0
    then Verdict.pass
    else if ltb missing (length cis_log_line_prefix_tokens)
    then Verdict.partial
    else Verdict.fail

unfoldable pub evaluate_prefix_cis : Text → Verdict
unfolding prefix_verdict trim_space
evaluate_prefix_cis prefix = prefix_verdict (trim_space prefix)

unfoldable pub evaluate_cis_lma : Bool → Verdict → Verdict
unfolding is_pass is_fail
evaluate_cis_lma log_connections_on prefix_cis =
    if log_connections_on && is_pass prefix_cis
    then Verdict.pass
    else if not log_connections_on && is_fail prefix_cis
    then Verdict.fail
    else Verdict.partial

-- The two results of `parserGate`: it can run, or the reason why not.
pub data Gate : Type 0 where
  can_run : Gate
  closed : Text → Gate

abbrev gate_if : Bool → Text → Gate
gate_if b reason = if b then can_run else closed reason

abbrev pub has_address : Text → Bool
has_address prefix = contains prefix (lit "%h") || contains prefix (lit "%r")

abbrev pub has_user_and_database : Text → Bool
has_user_and_database prefix = contains prefix (lit "%u") && contains prefix (lit "%d")

-- `parserGate`; the last reason names the command as well
unfoldable pub parser_gate : PgSettings → Text → Gate
unfolding contains beq
parser_gate s command =
    if beq command inactive_user
    then gate_if (contains s.log_line_prefix (lit "%u") || s.log_connections)
        (lit "set log_line_prefix to '%u' or enable log_connections")
    else if beq command unique_ips
    then gate_if (has_address s.log_line_prefix || s.log_connections)
        (lit "set log_line_prefix to '%h' or '%r' or enable log_connections")
    else if beq command hba_unused_lines
    then (if s.log_connections
        then gate_if (has_address s.log_line_prefix || has_user_and_database s.log_line_prefix) (
            lit
              "with log_connections enabled, set log_line_prefix to '%h' or '%r' or '%u' and '%d'")
        else gate_if (has_address s.log_line_prefix && has_user_and_database s.log_line_prefix)
            (lit "set log_line_prefix to '%h' or '%r' or '%u' and '%d'"))
    else if beq command password_leak_scanner || beq command sql_injection_scan
    then can_run
    else closed (lit "unknown log parser command")

abbrev pub opens : Gate → Bool
opens can_run = true
opens (closed reason) = false

-- the place of a command in a list, counted from a number
unfoldable pub number_in : ℕ → List Text → Text → Option ℕ
unfolding beq
number_in n [] command = none
number_in n (c ∷ cs) command =
    let rest = number_in (n + 1) cs command in if beq c command then some n else rest

-- `menuNumberForCommand`; the text of a number is written at the end
unfoldable pub menu_number_for_command : Text → Option ℕ
unfolding number_in
menu_number_for_command command = number_in 1 command_list command

unfoldable pub menu_numbers : List Text → List ℕ
unfolding menu_number_for_command
menu_numbers [] = []
menu_numbers (c ∷ cs) = elim (menu_number_for_command c) [
  | none ↦ menu_numbers cs
  | some n ↦ n ∷ menu_numbers cs
]

-- `formatCanRunMenus`, with the text of a number
unfoldable pub format_can_run_menus : (ℕ → Text) → List ℕ → Verdict → Text
unfolding sort_by join is_pass
format_can_run_menus decimal [] cis_lma =
    if is_pass cis_lma then lit "None" else lit "None until GUCs fixed"
format_can_run_menus decimal (n ∷ ns) cis_lma =
    join (lit " · ") (map decimal (sort_by (λ k. k) (n ∷ ns)))

-- What `BuildReadinessReport` returns.
pub record ReadinessReport : Type 0 where
  pub log_line_prefix_cis : Verdict
  pub cis_lma : Verdict
  pub parser_gates : List (Text × Gate)
  pub can_run_menus : Text
  pub runnable_commands : List Text
  pub logparser_readiness : Bool

abbrev commands_or_default : List Text → List Text
commands_or_default [] = default_log_parser_commands
commands_or_default (c ∷ cs) = c ∷ cs

unfoldable pub report_for : (ℕ → Text) → PgSettings → List Text → ReadinessReport
unfolding evaluate_prefix_cis evaluate_cis_lma parser_gate menu_numbers format_can_run_menus keep
report_for decimal s commands =
    let prefix_cis = evaluate_prefix_cis s.log_line_prefix in
    let cis_lma = evaluate_cis_lma s.log_connections prefix_cis in
    let runnable = keep (λ c. opens (parser_gate s c)) commands in
    record {
      log_line_prefix_cis = prefix_cis;
      cis_lma = cis_lma;
      parser_gates = map (λ c. (c, parser_gate s c)) commands;
      can_run_menus = format_can_run_menus decimal (menu_numbers runnable) cis_lma;
      runnable_commands = runnable;
      logparser_readiness = not (is_nil runnable);
    }

-- `BuildReadinessReport`
unfoldable pub build_readiness_report : (ℕ → Text) → PgSettings → List Text → ReadinessReport
unfolding report_for
build_readiness_report decimal s commands = report_for decimal s (commands_or_default commands)

-- What `Init` of a command comes to.
pub data Init (H : Type 0) : Type 0 where
  settings_rejected : Init H
  failed : Init H
  ready : H → Init H

-- `UniqueIPHelper.Init`
unfoldable pub unique_ip_init : PgSettings → Init Unit
unfolding contains
unique_ip_init s =
    if not (contains s.log_line_prefix (lit "%h"))
      && not (contains s.log_line_prefix (lit "%r"))
      && not s.log_connections
    then settings_rejected
    else ready tt

-- `InactiveUsersHelper.Init`
unfoldable pub inactive_users_init : PgSettings → Init Unit
unfolding contains
inactive_users_init s =
    if not (contains s.log_line_prefix (lit "%u")) && not s.log_connections
    then settings_rejected
    else ready tt

-- `PasswordLeakHelper.Init`
abbrev pub password_leak_init : PgSettings → Init Unit
password_leak_init s = ready tt

abbrev table_or_failed : Option HbaFileRule → Init HbaFileRule
table_or_failed none = failed
table_or_failed (some table) = ready table

module _ (net : Net) (io : Sources) where
  unfoldable pub init_table : Option (List HbaFileRules) → Init HbaFileRule
  unfolding parse_hba_file_rules
  init_table none = failed
  init_table (some rules) = table_or_failed (parse_hba_file_rules net rules)

  -- the rules from the file, if one is given, or else those that the database tells, if there is a
  -- connection
  unfoldable pub init_rules :
      Text → Option (Option (List HbaFileRules)) → Option (List HbaFileRules)
  unfolding scan_hba_file beq
  init_rules hba_conf_file none =
      if beq hba_conf_file [] then none else scan_hba_file io hba_conf_file
  init_rules hba_conf_file (some db_rules) =
      if beq hba_conf_file [] then db_rules else scan_hba_file io hba_conf_file

  -- `UnusedHBALineHelper.Init`
  unfoldable pub unused_lines_init :
      PgSettings → Text → Option (Option (List HbaFileRules)) → Init HbaFileRule
  unfolding init_table init_rules contains
  unused_lines_init s hba_conf_file db_rules =
      let started = init_table (init_rules hba_conf_file db_rules) in
      if s.log_connections
      then (if not (has_address s.log_line_prefix) && not (has_user_and_database s.log_line_prefix)
          then settings_rejected
          else started)
      else if not (has_address s.log_line_prefix) || not (has_user_and_database s.log_line_prefix)
      then settings_rejected
      else started
