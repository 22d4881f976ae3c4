-- ===== src/Schedule/Tests.antt =====
-- A collector with two databases, three commands and one `[[crons]]` entry.
use ciscollector_v.Common.{
  ◌↔◌, ℕ, ◌+◌, ◌*◌, ◌≡◌, refl, true, false, Option, some, List, [], ◌∷◌, Text, lit, beq, map, count,
  All, is_nil, lower, contains_text,
}
use ciscollector_v.Schedule.Targets.{
  Postgres, split_db_names, validates, expand_targets, expand_targets-validates,
}
use ciscollector_v.Schedule.Commands.{
  LogParserCronInput, Command, Built, built, rejected, parse_scan_commands, commands_from_postgres,
  plain_command,
}
use ciscollector_v.Schedule.Crons.{
  Config, Schedules, collector_schedule_ready, use_separate_pii, use_separate_log,
  collector_schedules, build_collector_schedule_map,
}
use ciscollector_v.Schedule.Complete.{IsUseful, IsRare, build_collector_schedule_map-IsUseful}
use ciscollector_v.Schedule.Counts.{scheduled, in_crons, build_collector_schedule_map-count}

abbrev two_databases : Postgres
two_databases = record {
  host = lit "db1";
  port = lit "5432";
  user = lit "app";
  password = lit "secret";
  db_name = lit "shop, crm";
  ssl_mode = [];
  ssl_cert = [];
  ssl_key = [];
  ssl_root_cert = [];
  ping_check = true;
  max_idle_conn = 0;
  max_open_conn = 0;
}

expand_targets-validates_example :
    (is_nil (expand_targets (some two_databases)) ≡ false)
    × (map (λ t. t.db_name) (expand_targets (some two_databases))
        ≡ split_db_names two_databases.db_name)
    × All
        (λ t. (t ≡ record two_databases { db_name = t.db_name }) × (beq t.db_name [] ≡ false))
        (expand_targets (some two_databases))
unfolding validates
expand_targets-validates_example = expand_targets-validates two_databases refl

abbrev one_log : LogParserCronInput
one_log = record {
  schedule = lit "0 3 * * *";
  prefix = [];
  log_file = lit "/var/log/pg.log";
  hba_conf_file = [];
}

abbrev collector : Config
collector = record {
  postgres = some two_databases;
  collector = record {
    schedule = lit "0 1 * * *";
    scan_commands = lit "postgres_cis, unique_ip, pii_scanner";
    log_parser = some one_log;
  };
  pii_schedule = [];
  crons =
      record { schedule = lit "0 1 * * *"; commands = plain_command (lit "ssl_check") [] ∷ [] }
      ∷ [];
}

-- every expression is a daily one
abbrev daily : Text → Option (ℕ × ℕ)
daily cron_expr = some (1000, 1000 + 24 * 3600)

abbrev commands_or_none : Built (List Command) → List Command
commands_or_none (built cmds) = cmds
commands_or_none (rejected e) = []

abbrev schedules_or_none : Built Schedules → Schedules
schedules_or_none (built out) = out
schedules_or_none (rejected e) = []

abbrev collector_commands : List Command
collector_commands = commands_or_none (
    commands_from_postgres collector.postgres collector.collector.scan_commands
      collector.collector.log_parser)

collector_commands-eq :
    commands_from_postgres collector.postgres collector.collector.scan_commands
      collector.collector.log_parser
    ≡ built collector_commands
unfolding commands_from_postgres lower
collector_commands-eq = refl

abbrev collector_map : Schedules
collector_map = schedules_or_none (build_collector_schedule_map daily (some collector))

collector_map-eq : build_collector_schedule_map daily (some collector) ≡ built collector_map
unfolding build_collector_schedule_map lower
collector_map-eq = refl

build_collector_schedule_map-IsUseful_example :
    (((out : Schedules) × (build_collector_schedule_map daily (some collector) ≡ built out)) ↔ (
      ((mid : Schedules) × (collector_schedules collector ≡ built mid))
      × All (IsRare daily) collector.crons))
    × ((out : Schedules)
        → build_collector_schedule_map daily (some collector) ≡ built out
        → All IsUseful out)
build_collector_schedule_map-IsUseful_example =
    build_collector_schedule_map-IsUseful daily collector

build_collector_schedule_map-count_example :
    scheduled (λ c. true) collector_map
    ≡ count (λ c. true) collector_commands + in_crons (λ c. true) collector.crons
unfolding collector_schedule_ready parse_scan_commands use_separate_pii use_separate_log
    contains_text lower
build_collector_schedule_map-count_example =
    build_collector_schedule_map-count (λ c. true) daily collector collector_commands collector_map
      refl refl collector_commands-eq collector_map-eq
