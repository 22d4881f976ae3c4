-- ===== src/BackupHistory/Defs.antt =====
-- cmd/ciscollector/backuphistory.go: the dates on which a backup is missing. The package `time` is
-- a parameter, and the loops without a bound are on fuel.
use ciscollector_v.Common.{
  ℕ, zero, suc, Bool, ◌&&◌, ◌==◌, ◌⊎◌, inl, inr, Option, none, some, List, [], ◌∷◌, ◌++◌, Text, lit,
  beq, contains_text, if◌then◌else◌,
}
use ciscollector_v.Common.Options.{◌>>=◌}
use ciscollector_v.Common.Sorting.{sort_by}
use ciscollector_v.BackupHistory.ParsedTime.{Dates}
use ciscollector_v.BackupHistory.Paths.{
  History, path_required, no_placeholders, parse_failed, unreadable, invalid_time, panicked, fatal,
  found, Files, get_backup_history,
}

-- What the loops use of `time.Time`.
pub record Clock (Time : Type 0) : Type 0 where
  -- the instant, which `After` compares
  pub instant : Time → ℕ
  -- `AddDate(0, 0, n)`
  pub add_days : ℕ → Time → Time
  -- `AddDate(0, n, 0)`
  pub add_months : ℕ → Time → Time
  -- `Format(time.DateOnly)`
  pub date_only : Time → Text
  -- `Format("2006-01")`
  pub year_month : Time → Text
  pub iso_week : Time → ℕ × ℕ
  -- `Sprintf("year %d - week %d")`
  pub week_text : ℕ × ℕ → Text

-- `BackupHistoryInput`
pub record BackupHistoryInput : Type 0 where
  pub backup_tool : Text
  pub backup_path : Text
  pub backup_frequency : Text

-- `BackupHistoryOutput`
pub record BackupHistoryOutput : Type 0 where
  pub missing_dates : List Text
  pub start_date : Text
  pub end_date : Text
  pub backup_frequency : Text

-- What `run` comes to: an error, or the output that it prints.
pub data Run : Type 0 where
  frequency_required : Run
  history_failed : Text → Run
  -- an error of `GetBackupHistory`
  path_failed : Run
  -- a panic, and `log.Fatal`, of `GetBackupHistory`
  crashed : Run
  exited : Run
  unsupported_tool : Text → Run
  no_backups : Run
  only_one_backup : Run
  unsupported_frequency : Text → Run
  reported : BackupHistoryOutput → Run

-- In what the three loops differ.
pub record Pace (Time : Type 0) : Type 0 where
  pub same : Time → Time → Bool
  pub next : Time → Time
  pub label : Time → Text

-- the comparison of two results of `ISOWeek`
abbrev pub same_week : ℕ × ℕ → ℕ × ℕ → Bool
same_week (y, w) (z, v) = y == z && w == v

-- the unique values, in the order of their first occurrence
unfoldable pub unique_onto : List Text → List Text → List Text
unfolding contains_text
unique_onto seen [] = seen
unique_onto seen (v ∷ vs) =
    let known = unique_onto seen vs in
    let added = unique_onto (seen ++ v ∷ []) vs in if contains_text seen v then known else added

module _ {Time : Type 0} where
  -- the inner loop, up to the date of the next backup
  unfoldable pub missing_until : Pace Time → ℕ → Time → Time → List Text → Option (List Text)
  missing_until p zero next_date current missing = none
  missing_until p (suc fuel) next_date current missing =
      let rest =
        missing_until p fuel (p.next next_date) current (missing ++ p.label next_date ∷ []) in
      if p.same next_date current then some missing else rest

  -- the outer loop, from the oldest backup on
  unfoldable pub missing_from : Pace Time → ℕ → Time → List Time → List Text → Option (List Text)
  unfolding missing_until
  missing_from p fuel previous [] missing = some missing
  missing_from p fuel previous (current ∷ backups) missing =
      let skipped = missing_from p fuel previous backups missing in
      let counted =
        (missing_until p fuel (p.next previous) current missing >>= λ listed.
        missing_from p fuel current backups listed) in
      if p.same previous current then skipped else counted

  module _ (clock : Clock Time) where
    abbrev pub daily : Pace Time
    daily = record {
      same = λ t u. beq (clock.date_only t) (clock.date_only u);
      next = clock.add_days 1;
      label = clock.date_only;
    }

    abbrev pub weekly : Pace Time
    weekly = record {
      same = λ t u. same_week (clock.iso_week t) (clock.iso_week u);
      next = clock.add_days 7;
      label = λ t. clock.week_text (clock.iso_week t);
    }

    abbrev pub monthly : Pace Time
    monthly = record {
      same = λ t u. beq (clock.year_month t) (clock.year_month u);
      next = clock.add_months 1;
      label = clock.year_month;
    }

    -- the `if` on the frequency
    unfoldable pub pace_of : Text → Option (Pace Time)
    unfolding beq
    pace_of frequency =
        if beq frequency (lit "daily")
        then some daily
        else if beq frequency (lit "weekly")
        then some weekly
        else if beq frequency (lit "monthly")
        then some monthly
        else none

    abbrev pub newest : Time → List Time → Time
    newest t [] = t
    newest t (u ∷ us) = newest u us

    unfoldable pub output : Text → Time → List Time → List Text → BackupHistoryOutput
    unfolding unique_onto
    output frequency oldest others missing = record {
      missing_dates = unique_onto [] missing;
      start_date = clock.date_only oldest;
      end_date = clock.date_only (newest oldest others);
      backup_frequency = frequency;
    }

    unfoldable pub report_at : Option (Pace Time) → ℕ → Text → Time → List Time → Option Run
    unfolding missing_from output
    report_at none fuel frequency oldest others = some (unsupported_frequency frequency)
    report_at (some pace) fuel frequency oldest others =
        missing_from pace fuel oldest others [] >>= λ missing.
        some (reported (output frequency oldest others missing))

    -- The source sorts the newest backup first and walks from the end of the slice.
    unfoldable pub report_sorted : ℕ → Text → List Time → Option Run
    unfolding report_at pace_of
    report_sorted fuel frequency [] = some no_backups
    report_sorted fuel frequency (t ∷ []) = some only_one_backup
    report_sorted fuel frequency (t ∷ u ∷ us) =
        report_at (pace_of frequency) fuel frequency t (u ∷ us)

    unfoldable pub report : ℕ → Text → Text ⊎ List Time → Option Run
    unfolding report_sorted sort_by
    report fuel frequency (inl e) = some (history_failed e)
    report fuel frequency (inr backups) =
        report_sorted fuel frequency (sort_by clock.instant backups)

    -- what follows the call of `GetBackupHistory`
    unfoldable pub path_report : ℕ → Text → History (List Time) → Option Run
    unfolding report
    path_report fuel frequency (found backups) = report fuel frequency (inr backups)
    path_report fuel frequency panicked = some crashed
    path_report fuel frequency fatal = some exited
    path_report fuel frequency path_required = some path_failed
    path_report fuel frequency no_placeholders = some path_failed
    path_report fuel frequency parse_failed = some path_failed
    path_report fuel frequency unreadable = some path_failed
    path_report fuel frequency invalid_time = some path_failed

    -- `run`, without the output on the terminal; `none` means that the fuel ran out
    unfoldable pub run : Dates Time → Files → Text ⊎ List Time → ℕ → BackupHistoryInput → Option Run
    unfolding report path_report get_backup_history beq contains_text
    run dates files pgbackrest_history fuel input =
        if beq input.backup_frequency []
        then some frequency_required
        else if beq input.backup_tool (lit "pgbackrest")
        then report fuel input.backup_frequency pgbackrest_history
        else if contains_text (lit "pg_dump" ∷ lit "pg_dumpall" ∷ lit "pg_basebackup" ∷ [])
            input.backup_tool
        then path_report fuel input.backup_frequency
            (get_backup_history dates files input.backup_path)
        else some (unsupported_tool input.backup_tool)
