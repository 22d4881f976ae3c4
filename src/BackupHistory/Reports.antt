-- ===== src/BackupHistory/Reports.antt =====
-- cmd/ciscollector/backuphistory.go: what `run` reports for each frequency, and whether it ends.
use ciscollector_v.Common.{
  ℕ, zero, suc, ◌+◌, ◌≤◌, ◌<◌, ◌≡◌, ◌⊎◌, refl, ap, ◌∙◌, inl, inr, false, Option, some, none, List,
  [], ◌∷◌, ◌++◌, map, All, arith, Bool-cases, Text, lit, beq, beq_iff, contains_text,
}
use ciscollector_v.Common.Sorting.{sort_by}
use ciscollector_v.BackupHistory.ParsedTime.{Dates}
use ciscollector_v.BackupHistory.Paths.{
  History, path_required, no_placeholders, parse_failed, unreadable, invalid_time, panicked, fatal,
  found, Files, get_backup_history,
}
use ciscollector_v.BackupHistory.Defs.{
  path_report, Clock, BackupHistoryInput, Run, daily, weekly, monthly, missing_until, missing_from,
  newest, report_at, report_sorted, report, run, pace_of,
}
use ciscollector_v.BackupHistory.Walk.{IsNumbered}
use ciscollector_v.BackupHistory.Missing.{AreMissing, report_lem}
use ciscollector_v.BackupHistory.Clock.{
  Calendar, IsClock, Always, IsEarly, week_label, daily-IsNumbered, weekly-IsNumbered,
  monthly-IsNumbered,
}

-- It comes to a result with all fuel from some amount on.
abbrev pub Ends : (ℕ → Option Run) → Type 0
Ends f = (enough : ℕ) × ((fuel : ℕ) → enough ≤ fuel → (r : Run) × (f fuel ≡ some r))

at_once-Ends : (f : ℕ → Option Run) (r : Run) → ((fuel : ℕ) → f fuel ≡ some r) → Ends f
at_once-Ends f r h = (0, λ fuel _. (r, h fuel))

module _ {Time : Type 0} (c : Clock Time) (k : Calendar Time) (law : IsClock c k) where
  daily_pace : pace_of c (lit "daily") ≡ some (daily c)
  unfolding pace_of beq
  daily_pace = refl

  weekly_pace : pace_of c (lit "weekly") ≡ some (weekly c)
  unfolding pace_of beq
  weekly_pace = refl

  monthly_pace : pace_of c (lit "monthly") ≡ some (monthly c)
  unfolding pace_of beq
  monthly_pace = refl

  All-Always : (ts : List Time) → All Always ts
  All-Always [] = tt
  All-Always (t ∷ ts) = (tt, All-Always ts)

  -- With two backups or more and the frequency "daily", and fuel for the days from the oldest
  -- backup to the newest, the report gives the two dates and, as missing dates, exactly the days
  -- between them on which there is no backup, each once and in rising order.
  pub daily_report :
      (fuel : ℕ) (backups : List Time) (t u : Time) (us : List Time)
      → sort_by c.instant backups ≡ t ∷ u ∷ us
      → k.day (newest c u us) < k.day t + fuel
      → (missing : List ℕ) × (report c fuel (lit "daily") (inr backups)
          ≡ some (
              Run.reported (record {
                missing_dates = map k.date_text missing;
                start_date = c.date_only t;
                end_date = c.date_only (newest c u us);
                backup_frequency = lit "daily";
              })))
        × AreMissing c k.day t (newest c u us) backups missing
  daily_report fuel backups t u us sorted =
      report_lem c (daily c) k.day k.date_text Always (daily-IsNumbered law) law.day_order fuel
        (lit "daily") backups t u us daily_pace sorted (All-Always backups)

  -- With two backups or more and the frequency "weekly", and fuel for the weeks from the oldest
  -- backup to the newest, the missing dates are exactly the ISO weeks between theirs in which there
  -- is no backup, each once and in rising order.
  pub weekly_report :
      (fuel : ℕ) (backups : List Time) (t u : Time) (us : List Time)
      → sort_by c.instant backups ≡ t ∷ u ∷ us
      → k.week (newest c u us) < k.week t + fuel
      → (missing : List ℕ) × (report c fuel (lit "weekly") (inr backups)
          ≡ some (
              Run.reported (record {
                missing_dates = map (week_label law) missing;
                start_date = c.date_only t;
                end_date = c.date_only (newest c u us);
                backup_frequency = lit "weekly";
              })))
        × AreMissing c k.week t (newest c u us) backups missing
  weekly_report fuel backups t u us sorted =
      report_lem c (weekly c) k.week (week_label law) Always (weekly-IsNumbered law) law.week_order
        fuel (lit "weekly") backups t u us weekly_pace sorted (All-Always backups)

  -- With two backups or more, all made on one of the first 28 days of a month, the frequency
  -- "monthly", and fuel for the months from the oldest to the newest, the missing dates are exactly
  -- the months between theirs in which there is no backup, each once and in rising order.
  pub monthly_report :
      (fuel : ℕ) (backups : List Time) (t u : Time) (us : List Time)
      → sort_by c.instant backups ≡ t ∷ u ∷ us
      → All (IsEarly law) backups
      → k.month (newest c u us) < k.month t + fuel
      → (missing : List ℕ) × (report c fuel (lit "monthly") (inr backups)
          ≡ some (
              Run.reported (record {
                missing_dates = map k.month_text missing;
                start_date = c.date_only t;
                end_date = c.date_only (newest c u us);
                backup_frequency = lit "monthly";
              })))
        × AreMissing c k.month t (newest c u us) backups missing
  monthly_report fuel backups t u us sorted early =
      report_lem c (monthly c) k.month k.month_text (IsEarly law) (monthly-IsNumbered law)
        law.month_order fuel (lit "monthly") backups t u us monthly_pace sorted early

  no_pace :
      (frequency : Text)
      → beq frequency (lit "daily") ≡ false
      → beq frequency (lit "weekly") ≡ false
      → beq frequency (lit "monthly") ≡ false
      → pace_of c frequency ≡ none
  unfolding pace_of
  no_pace frequency d w m = rw (d, w, m) refl

  sorted-Ends :
      (frequency : Text) (backups ts : List Time)
      → beq frequency (lit "monthly") ≡ false
      → sort_by c.instant backups ≡ ts
      → Ends (λ fuel. report c fuel frequency (inr backups))
  unfolding report report_sorted report_at
  sorted-Ends frequency backups [] h sorted = at_once-Ends _ Run.no_backups (λ fuel. rw sorted refl)
  sorted-Ends frequency backups (t ∷ []) h sorted =
      at_once-Ends _ Run.only_one_backup (λ fuel. rw sorted refl)
  sorted-Ends frequency backups (t ∷ u ∷ us) h sorted =
      elim (Bool-cases (beq frequency (lit "daily"))) [
        | inl d ↦ (
          suc (k.day (newest c u us)),
          λ fuel le. rw ((beq_iff frequency (lit "daily")).0 d) (
              let (missing, e, _) = daily_report fuel backups t u us sorted (omega arith) in
              (_, e)),
        )
        | inr d ↦ elim (Bool-cases (beq frequency (lit "weekly"))) [
          | inl w ↦ (
            suc (k.week (newest c u us)),
            λ fuel le. rw ((beq_iff frequency (lit "weekly")).0 w) (
                let (missing, e, _) = weekly_report fuel backups t u us sorted (omega arith) in
                (_, e)),
          )
          | inr w ↦
              at_once-Ends _ (Run.unsupported_frequency frequency)
                (λ fuel. rw (sorted, no_pace frequency d w h) refl)
        ]
      ]

  report-Ends :
      (frequency : Text) (history : Text ⊎ List Time)
      → beq frequency (lit "monthly") ≡ false
      → Ends (λ fuel. report c fuel frequency history)
  unfolding report
  report-Ends frequency (inl e) h = at_once-Ends _ (Run.history_failed e) (λ fuel. refl)
  report-Ends frequency (inr backups) h =
      sorted-Ends frequency backups (sort_by c.instant backups) h refl

  path_report-Ends :
      (frequency : Text) (history : History (List Time))
      → beq frequency (lit "monthly") ≡ false
      → Ends (λ fuel. path_report c fuel frequency history)
  unfolding path_report
  path_report-Ends frequency (found backups) h = report-Ends frequency (inr backups) h
  path_report-Ends frequency panicked h = at_once-Ends _ Run.crashed (λ fuel. refl)
  path_report-Ends frequency fatal h = at_once-Ends _ Run.exited (λ fuel. refl)
  path_report-Ends frequency path_required h = at_once-Ends _ Run.path_failed (λ fuel. refl)
  path_report-Ends frequency no_placeholders h = at_once-Ends _ Run.path_failed (λ fuel. refl)
  path_report-Ends frequency parse_failed h = at_once-Ends _ Run.path_failed (λ fuel. refl)
  path_report-Ends frequency unreadable h = at_once-Ends _ Run.path_failed (λ fuel. refl)
  path_report-Ends frequency invalid_time h = at_once-Ends _ Run.path_failed (λ fuel. refl)

  -- On a calendar with the laws of `IsClock`, and whatever the tool, the path, the files and the
  -- answer of pgbackrest are, `run` comes to an end if the frequency is not "monthly": with enough fuel its result is a report, an error, or the
  -- panic or `log.Fatal` in which `GetBackupHistory` ends.
  pub run-Ends :
      (dates : Dates Time) (files : Files) (pgbackrest_history : Text ⊎ List Time)
      (input : BackupHistoryInput)
      → beq input.backup_frequency (lit "monthly") ≡ false
      → Ends (λ fuel. run c dates files pgbackrest_history fuel input)
  unfolding run
  run-Ends dates files pgbackrest_history input h =
      elim (Bool-cases (beq input.backup_frequency [])) [
        | inl e ↦ at_once-Ends _ Run.frequency_required (λ fuel. rw e refl)
        | inr e ↦ elim (Bool-cases (beq input.backup_tool (lit "pgbackrest"))) [
          | inl p ↦
              let (enough, f) = report-Ends input.backup_frequency pgbackrest_history h in
              (enough, λ fuel le. rw (e, p) (f fuel le))
          | inr p ↦
              elim (Bool-cases (
                contains_text (lit "pg_dump" ∷ lit "pg_dumpall" ∷ lit "pg_basebackup" ∷ [])
                  input.backup_tool)) [
                    | inl d ↦
                        let (enough, f) =
                          path_report-Ends input.backup_frequency
                            (get_backup_history dates files input.backup_path) h in
                        (enough, λ fuel le. rw (e, p, d) (f fuel le))
                    | inr d ↦
                        at_once-Ends _ (Run.unsupported_tool input.backup_tool)
                          (λ fuel. rw (e, p, d) refl)
                  ]
        ]
      ]

  until_never :
      (fuel : ℕ) (t u : Time) (missing : List Text)
      → k.month u < k.month t
      → missing_until (monthly c) fuel t u missing ≡ none
  unfolding missing_until
  until_never zero t u missing lt = refl
  until_never (suc fuel) t u missing lt = ground (
    arith,
    months.same_iff t u,
    law.later_month t,
    until_never fuel (c.add_months 1 t) u (missing ++ c.year_month t ∷ []),
  )
    where
      months : IsNumbered (monthly c) k.month k.month_text (IsEarly law)
      months = monthly-IsNumbered law

  -- If a month on from the oldest backup lies beyond the month of the next one, and the two are of
  -- different months, then with the frequency "monthly" no amount of fuel brings a report: the loop
  -- of the source does not end.
  pub monthly_overrun :
      (backups : List Time) (t u : Time) (us : List Time)
      → sort_by c.instant backups ≡ t ∷ u ∷ us
      → k.month t < k.month u
      → k.month u < k.month (c.add_months 1 t)
      → (fuel : ℕ) → report c fuel (lit "monthly") (inr backups) ≡ none
  unfolding report report_sorted report_at missing_from
  monthly_overrun backups t u us sorted lt over fuel =
      let months = monthly-IsNumbered law in
      let differ : beq (c.year_month t) (c.year_month u) ≡ false =
        ground (arith, months.same_iff t u) in
      let never = until_never fuel (c.add_months 1 t) u [] over in
      let stuck : report_at c (some (monthly c)) fuel (lit "monthly") t (u ∷ us) ≡ none =
        rw (differ, never) refl in
      rw sorted (ap (λ q. report_at c q fuel (lit "monthly") t (u ∷ us)) monthly_pace ∙ stuck)
