-- ===== src/Schedule/Crons.antt =====
-- pkg/config/collector_schedules.go, collector.go and pkg/cron/utils.go: the map from the
-- schedules to their commands. The two next times of a cron expression come from the cron
-- library, as numbers of seconds; `none` is a parse error.
use ciscollector_v.Common.{
  ℕ, ◌+◌, ◌-◌, ◌*◌, Bool, true, false, not, ◌&&◌, ◌||◌, Option, none, some, List, [], ◌∷◌, ◌++◌,
  Text, lit, beq, leb, trim_space, is_nil, contains_text, if◌then◌else◌,
}
use ciscollector_v.Common.Maps.{Map, lookup, insert, text_eq}
use ciscollector_v.Schedule.Targets.{Postgres}
use ciscollector_v.Schedule.Commands.{
  LogParserCronInput, Command, cron_schedule_required, cron_schedule_invalid, cron_too_frequent,
  Built, built, rejected, ◌then_build◌, parse_scan_commands, commands_from_postgres,
  scan_commands_include_pii, scan_commands_include_log_parser, Parts, expand_all_schedule_commands,
  partition_scheduled_commands,
}

-- `Cron`
pub record Cron : Type 0 where
  pub schedule : Text
  pub commands : List Command

-- `Collector`
pub record Collector : Type 0 where
  pub schedule : Text
  pub scan_commands : Text
  pub log_parser : Option LogParserCronInput

-- `Config`, with the sections that the schedules depend on
pub record Config : Type 0 where
  pub postgres : Option Postgres
  pub collector : Collector
  pub pii_schedule : Text
  pub crons : List Cron

abbrev pub Schedules : Type 0
Schedules = Map Text (List Command)

abbrev pub commands_at : Option (List Command) → List Command
commands_at none = []
commands_at (some cmds) = cmds

unfoldable pub append_commands : Schedules → Text → List Command → Schedules
unfolding lookup insert beq
append_commands out sched cmds = insert sched (commands_at (lookup sched out) ++ cmds) out

-- `assignScheduleCommands`
unfoldable pub assign_schedule_commands : Schedules → Text → List Command → Schedules
unfolding append_commands trim_space beq
assign_schedule_commands out sched cmds =
    if beq (trim_space sched) [] || is_nil cmds then out else append_commands out sched cmds

-- `CollectorScheduleReady`
unfoldable pub collector_schedule_ready : Config → Bool
unfolding trim_space beq
collector_schedule_ready c = elim c.postgres [
  | none ↦ false
  | some _ ↦
      not (beq (trim_space c.collector.schedule) [])
      && not (beq (trim_space c.collector.scan_commands) [])
]

-- `logParserSchedule`
unfoldable pub log_parser_schedule : Config → Text
unfolding trim_space
log_parser_schedule c = elim c.collector.log_parser [ none ↦ [] | some lp ↦ trim_space lp.schedule ]

-- The three lists after the two that have no schedule of their own have joined the main one.
unfoldable pub merge_parts : Bool → Bool → Parts → Parts
merge_parts true true p = p
merge_parts true false p = record { main = p.main ++ p.log; pii = p.pii; log = [] }
merge_parts false true p = record { main = p.main ++ p.pii; pii = []; log = p.log }
merge_parts false false p = record { main = p.main ++ p.pii ++ p.log; pii = []; log = [] }

unfoldable pub assign_parts : Text → Text → Text → Parts → Schedules → Schedules
unfolding assign_schedule_commands
assign_parts collector_sched pii_sched log_sched p out =
    assign_schedule_commands
      (assign_schedule_commands (assign_schedule_commands out collector_sched p.main) pii_sched
        p.pii)
      log_sched p.log

unfoldable pub use_separate_pii : Config → Bool
unfolding trim_space beq scan_commands_include_pii
use_separate_pii c =
    not (beq (trim_space c.pii_schedule) []) && scan_commands_include_pii c.collector.scan_commands

unfoldable pub use_separate_log : Config → Bool
unfolding log_parser_schedule beq scan_commands_include_log_parser
use_separate_log c =
    not (beq (log_parser_schedule c) [])
    && scan_commands_include_log_parser c.collector.scan_commands

-- The lists of commands for the three schedules: the commands themselves, split if one of the
-- other two schedules is in use.
unfoldable pub collector_parts : Config → List Command → Built Parts
unfolding parse_scan_commands contains_text use_separate_pii use_separate_log
    expand_all_schedule_commands partition_scheduled_commands merge_parts
collector_parts c all_cmds =
    let pii = use_separate_pii c in
    let log = use_separate_log c in
    if contains_text (parse_scan_commands c.collector.scan_commands) (lit "all") && (pii || log)
    then (expand_all_schedule_commands c.postgres c.collector.log_parser then_build λ p.
        built (merge_parts pii log p))
    else if not pii && not log
    then built (record { main = all_cmds; pii = []; log = [] })
    else built (merge_parts pii log (partition_scheduled_commands all_cmds))

-- the body of the `if` of `BuildCollectorScheduleMap`
unfoldable pub ready_schedules : Config → Built Schedules
unfolding commands_from_postgres collector_parts assign_parts trim_space log_parser_schedule
ready_schedules c =
    commands_from_postgres c.postgres c.collector.scan_commands c.collector.log_parser
    then_build λ all_cmds. collector_parts c all_cmds then_build λ p. built (
        assign_parts (trim_space c.collector.schedule) (trim_space c.pii_schedule)
          (log_parser_schedule c) p [])

-- the part of `BuildCollectorScheduleMap` on the `[collector]` section
unfoldable pub collector_schedules : Config → Built Schedules
unfolding collector_schedule_ready ready_schedules
collector_schedules c = if collector_schedule_ready c then ready_schedules c else built []

module _ (get_next_two_occurrences : Text → Option (ℕ × ℕ)) where
  -- `IsLessThan24Hours`, which says whether there are 24 hours or more
  unfoldable pub is_less_than_24_hours : Text → Option Bool
  is_less_than_24_hours cron_expr = elim (get_next_two_occurrences cron_expr) [
    | none ↦ none
    | some (first, second) ↦ some (leb (24 * 3600) (second - first))
  ]

  -- one pass of the loop of `mergeLegacyCrons`, for the entry at `i`
  unfoldable pub merge_cron : ℕ → Cron → Schedules → Built Schedules
  unfolding trim_space beq is_less_than_24_hours append_commands
  merge_cron i cr out =
      let sched = trim_space cr.schedule in
      if beq sched []
      then rejected (cron_schedule_required i)
      else elim (is_less_than_24_hours sched) [
        | none ↦ rejected (cron_schedule_invalid i)
        | some accepted ↦
            if not accepted
            then rejected (cron_too_frequent i)
            else if is_nil cr.commands
            then built out
            else built (append_commands out sched cr.commands)
      ]

  -- `mergeLegacyCrons`
  unfoldable pub merge_legacy_crons : ℕ → List Cron → Schedules → Built Schedules
  unfolding merge_cron
  merge_legacy_crons i [] out = built out
  merge_legacy_crons i (cr ∷ crons) out =
      merge_cron (i + 1) cr out then_build λ out'. merge_legacy_crons (i + 1) crons out'

  -- `BuildCollectorScheduleMap`
  unfoldable pub build_collector_schedule_map : Option Config → Built Schedules
  unfolding collector_schedules merge_legacy_crons
  build_collector_schedule_map none = built []
  build_collector_schedule_map (some c) =
      collector_schedules c then_build λ out. merge_legacy_crons 0 c.crons out
