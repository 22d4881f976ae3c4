-- ===== src/BackupHistory/Tests.antt =====
-- Runs of the backup history, and its theorems at concrete backups. The calendar of the tests has
-- days in instants, weeks of seven days, and months of 31 and of 28 days in turn.
use Prim.Native.Nat.{◌/◌, ◌%◌}
use ciscollector_v.Common.{
  beq, ℕ, zero, suc, ◌+◌, ◌-◌, ◌*◌, ◌≡◌, refl, inl, inr, none, some, List, [], ◌∷◌, arith, lit, ltb,
  map, if◌then◌else◌,
}
use ciscollector_v.Common.Sorting.{sort_by}
use ciscollector_v.BackupHistory.Defs.{Clock, BackupHistoryInput, Run, run, report}
use ciscollector_v.BackupHistory.Clock.{Calendar, IsClock}
use ciscollector_v.BackupHistory.Missing.{AreMissing}
use ciscollector_v.BackupHistory.Reports.{
  daily_report, weekly_report, monthly_report, Ends, run-Ends, monthly_overrun,
}
use ciscollector_v.BackupHistory.Paths.{History, Files, file_time, get_backup_history}
use ciscollector_v.BackupHistory.ParsedTime.{Dates}
use ciscollector_v.BackupHistory.RoundTrip.{stamp_groups, file_time-stamp}

abbrev month_later : ℕ → ℕ
month_later t = if ltb (t % 59) 31 then t + 31 else t + 28

abbrev months_later : ℕ → ℕ → ℕ
months_later zero t = t
months_later (suc n) t = months_later n (month_later t)

abbrev test_clock : Clock ℕ
test_clock = record {
  instant = λ t. t;
  add_days = λ n t. t + n;
  add_months = months_later;
  date_only = λ t. t ∷ [];
  year_month = λ t. (2 * (t / 59) + (if ltb (t % 59) 31 then 0 else 1)) ∷ [];
  iso_week = λ t. (0, t / 7);
  week_text = λ w. w.0 ∷ w.1 ∷ [];
}

abbrev test_calendar : Calendar ℕ
test_calendar = record {
  day = λ t. t;
  week = λ t. t / 7;
  month = λ t. 2 * (t / 59) + (if ltb (t % 59) 31 then 0 else 1);
  day_of_month = λ t. if ltb (t % 59) 31 then t % 59 + 1 else t % 59 - 30;
  iso = λ n. (0, n);
  date_text = λ n. n ∷ [];
  month_text = λ n. n ∷ [];
}

test_clock-IsClock : IsClock test_clock test_calendar
test_clock-IsClock = record {
  day_order = λ t u h. h;
  week_order = λ t u h. omega arith;
  month_order = λ t u h. ground arith;
  date_only_lem = λ t. refl;
  year_month_lem = λ t. refl;
  iso_week_lem = λ t. refl;
  date_text_inj = λ m n h. cc;
  month_text_inj = λ m n h. cc;
  week_text_inj = λ m n h. cc;
  next_day = λ t. refl;
  next_week = λ t. omega arith;
  next_month = λ t h. ground arith;
  later_month = λ t. ground arith;
}

-- Instants 1, 3 and 5: the days 2 and 4 are missing.
daily_runs :
    report test_clock 10 (lit "daily") (inr (5 ∷ 1 ∷ 3 ∷ []))
    ≡ some (
        Run.reported (record {
          missing_dates = (2 ∷ []) ∷ (4 ∷ []) ∷ [];
          start_date = 1 ∷ [];
          end_date = 5 ∷ [];
          backup_frequency = lit "daily";
        }))
unfolding report sort_by
daily_runs = refl

three_sorted : sort_by (λ t. t) (5 ∷ 1 ∷ 3 ∷ []) ≡ 1 ∷ 3 ∷ 5 ∷ []
unfolding sort_by
three_sorted = refl

months_sorted : sort_by (λ t. t) (95 ∷ 10 ∷ []) ≡ 10 ∷ 95 ∷ []
unfolding sort_by
months_sorted = refl

daily_report_example :
    (missing : List ℕ) × (report test_clock 10 (lit "daily") (inr (5 ∷ 1 ∷ 3 ∷ []))
      ≡ some (
          Run.reported (record {
            missing_dates = map (λ n. n ∷ []) missing;
            start_date = 1 ∷ [];
            end_date = 5 ∷ [];
            backup_frequency = lit "daily";
          })))
    × AreMissing test_clock (λ t. t) 1 5 (5 ∷ 1 ∷ 3 ∷ []) missing
daily_report_example =
    daily_report test_clock test_calendar test_clock-IsClock 10 (5 ∷ 1 ∷ 3 ∷ []) 1 3 (5 ∷ [])
      three_sorted (omega arith)

monthly_report_example :
    (missing : List ℕ) × (report test_clock 5 (lit "monthly") (inr (95 ∷ 10 ∷ []))
      ≡ some (
          Run.reported (record {
            missing_dates = map (λ n. n ∷ []) missing;
            start_date = 10 ∷ [];
            end_date = 95 ∷ [];
            backup_frequency = lit "monthly";
          })))
    × AreMissing test_clock test_calendar.month 10 95 (95 ∷ 10 ∷ []) missing
monthly_report_example =
    monthly_report test_clock test_calendar test_clock-IsClock 5 (95 ∷ 10 ∷ []) 10 95 []
      months_sorted (omega arith, (omega arith, tt)) (omega arith)

overrun_sorted : sort_by (λ t. t) (40 ∷ 30 ∷ []) ≡ 30 ∷ 40 ∷ []
unfolding sort_by
overrun_sorted = refl

-- The 31st of a month, and the 10th of the next one, which has 28 days.
monthly_overrun_example : report test_clock 1000 (lit "monthly") (inr (40 ∷ 30 ∷ [])) ≡ none
monthly_overrun_example =
    monthly_overrun test_clock test_calendar test_clock-IsClock (40 ∷ 30 ∷ []) 30 40 []
      overrun_sorted (omega arith) (omega arith) 1000

abbrev test_dates : Dates (List ℕ)
test_dates = record { date = λ y mo d h m s. y ∷ mo ∷ d ∷ h ∷ m ∷ s ∷ []; add_days = λ n t. n ∷ t }

abbrev test_files : Files
test_files = record {
  glob = λ p. some (lit "b-2024-05-31T17:08:09" ∷ []);
  compile = λ r. some (λ f. some (stamp_groups 2024 5 31 17 8 9));
  sizes = λ f. some (0 ∷ 4096 ∷ []);
}

history_runs :
    get_backup_history test_dates test_files (lit "b-%Y-%m-%dT%T")
    ≡ History.found ((2024 ∷ 5 ∷ 31 ∷ 17 ∷ 8 ∷ 9 ∷ []) ∷ [])
unfolding get_backup_history
history_runs = refl

file_time-stamp_example :
    file_time test_dates test_files
      (lit "%Y" ∷ lit "%m" ∷ lit "%d" ∷ lit "%T" ∷ [])
      (lit "b-2024-05-31T17:08:09")
      (some (stamp_groups 2024 5 31 17 8 9))
    ≡ History.found ((2024 ∷ 5 ∷ 31 ∷ 17 ∷ 8 ∷ 9 ∷ []) ∷ [])
file_time-stamp_example =
    file_time-stamp test_dates test_files (lit "b-2024-05-31T17:08:09") (0 ∷ 4096 ∷ []) 2024 5 31 17
      8 9 (omega arith) (omega arith) (omega arith) (omega arith) (omega arith) (omega arith)
      (omega arith) (omega arith) (omega arith) refl (omega arith)

-- The weeks 0, 2 and 4 have a backup.
weekly_runs :
    report test_clock 20 (lit "weekly") (inr (15 ∷ 1 ∷ 30 ∷ []))
    ≡ some (
        Run.reported (record {
          missing_dates = (0 ∷ 1 ∷ []) ∷ (0 ∷ 3 ∷ []) ∷ [];
          start_date = 1 ∷ [];
          end_date = 30 ∷ [];
          backup_frequency = lit "weekly";
        }))
unfolding report sort_by
weekly_runs = refl

-- a calendar whose times are days
abbrev day_dates : Dates ℕ
day_dates = record { date = λ y mo d h m s. 31 * mo + d; add_days = λ n t. n + t }

abbrev weekly_input : BackupHistoryInput
weekly_input = record {
  backup_tool = lit "pg_dump";
  backup_path = lit "b-%Y-%m-%dT%T";
  backup_frequency = lit "weekly";
}

run-Ends_example : Ends (λ fuel. run test_clock day_dates test_files (inl []) fuel weekly_input)
unfolding beq
run-Ends_example =
    run-Ends test_clock test_calendar test_clock-IsClock day_dates test_files (inl []) weekly_input
      refl

-- The path ends with `%`.
run_crashes :
    run test_clock day_dates test_files (inl []) 9 (record weekly_input { backup_path = lit "b-%" })
    ≡ some Run.crashed
unfolding run
run_crashes = refl

weeks_sorted : sort_by (λ t. t) (15 ∷ 1 ∷ 30 ∷ []) ≡ 1 ∷ 15 ∷ 30 ∷ []
unfolding sort_by
weeks_sorted = refl

weekly_report_example :
    (missing : List ℕ) × (report test_clock 20 (lit "weekly") (inr (15 ∷ 1 ∷ 30 ∷ []))
      ≡ some (
          Run.reported (record {
            missing_dates = map (λ n. 0 ∷ n ∷ []) missing;
            start_date = 1 ∷ [];
            end_date = 30 ∷ [];
            backup_frequency = lit "weekly";
          })))
    × AreMissing test_clock (λ t. t / 7) 1 30 (15 ∷ 1 ∷ 30 ∷ []) missing
weekly_report_example =
    weekly_report test_clock test_calendar test_clock-IsClock 20 (15 ∷ 1 ∷ 30 ∷ []) 1 15 (30 ∷ [])
      weeks_sorted (omega arith)
