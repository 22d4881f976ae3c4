-- ===== src/BackupHistory/RoundTrip.antt =====
-- pkg/backuphistory/backuphistory.go: reading back the digits of a date and of a time, and paths
-- that end in a `%`.
use Prim.Native.Nat.{◌/◌, ◌%◌}
use ciscollector_v.Common.{
  ℕ, ◌+◌, ◌<◌, ◌≡◌, ◌≢◌, refl, ap, ◌∙◌, false, none, some, List, [], ◌∷◌, ◌++◌, arith, Text, lit,
  ◌==◌, split, is_nil, All, beq,
}
use ciscollector_v.BackupHistory.ParsedTime.{
  BackupParsedTime, blank_time, atoi, set_hour, read_year, read_month, read_day, read_hour,
  read_minute, read_second, read_time, read_time_parts, map_for_prefix, Dates, get_time,
}
use ciscollector_v.BackupHistory.Paths.{
  PathScan, History, add_character, read_with, scan_path, read_groups, read_group, Files, file_time,
  time_unless_empty, total_size, get_backup_history, scanned_times,
}
use ciscollector_v.Common.Maps.{lookup, text_eq}
use ciscollector_v.Common.TextLaws.{split-word, split-append}

-- The digits that a backup tool writes.
abbrev pub two_digits : ℕ → Text
two_digits n = (b'0' + n / 10 % 10) ∷ (b'0' + n % 10) ∷ []

abbrev pub four_digits : ℕ → Text
four_digits n = (b'0' + n / 1000 % 10) ∷ (b'0' + n / 100 % 10) ∷ two_digits n

abbrev pub clock_time : ℕ → ℕ → ℕ → Text
clock_time h m s = two_digits h ++ b':' ∷ two_digits m ++ b':' ∷ two_digits s

atoi-two_digits : (n : ℕ) → n < 100 → atoi (two_digits n) ≡ some n
unfolding atoi
atoi-two_digits n h = ground arith

atoi-four_digits : (n : ℕ) → n < 10_000 → atoi (four_digits n) ≡ some n
unfolding atoi
atoi-four_digits n h = ground arith

two_digits-All : (n : ℕ) → All (λ c. c ≢ b':') (two_digits n)
two_digits-All n = ((λ e. omega arith), ((λ e. omega arith), tt))

split-clock_time :
    (h m s : ℕ) → split b':' (clock_time h m s) ≡ two_digits h ∷ two_digits m ∷ two_digits s ∷ []
split-clock_time h m s =
    split-append b':' (two_digits h) (two_digits m ++ b':' ∷ two_digits s) (two_digits-All h)
    ∙ ap (λ r. two_digits h ∷ r)
        (split-append b':' (two_digits m) (two_digits s) (two_digits-All m)
          ∙ ap (λ r. two_digits m ∷ r) (split-word b':' (two_digits s) (two_digits-All s)))

group_year :
    (s : Text) (t : BackupParsedTime) → read_group (lit "%Y") s t ≡ read_with (read_year s t)
unfolding read_group map_for_prefix lookup beq
group_year s t = refl

group_month :
    (s : Text) (t : BackupParsedTime) → read_group (lit "%m") s t ≡ read_with (read_month s t)
unfolding read_group map_for_prefix lookup beq
group_month s t = refl

group_day : (s : Text) (t : BackupParsedTime) → read_group (lit "%d") s t ≡ read_with (read_day s t)
unfolding read_group map_for_prefix lookup beq
group_day s t = refl

group_time :
    (s : Text) (t : BackupParsedTime) → read_group (lit "%T") s t ≡ read_with (read_time s t)
unfolding read_group map_for_prefix lookup beq
group_time s t = refl

year_lem :
    (n : ℕ) (t : BackupParsedTime)
    → n < 10_000
    → read_year (four_digits n) t ≡ some (record t { year = n })
unfolding read_year
year_lem n t h = simp (atoi-four_digits n h)

month_lem :
    (n : ℕ) (t : BackupParsedTime)
    → n < 100
    → read_month (two_digits n) t ≡ some (record t { month = n })
unfolding read_month
month_lem n t h = simp (atoi-two_digits n h)

day_lem :
    (n : ℕ) (t : BackupParsedTime)
    → n < 100
    → read_day (two_digits n) t ≡ some (record t { day = n })
unfolding read_day
day_lem n t h = simp (atoi-two_digits n h)

-- the time of day, on the clock of twelve hours
abbrev at_time : ℕ → ℕ → ℕ → BackupParsedTime → BackupParsedTime
at_time h m s t = record (set_hour h t) { minute = m; second = s }

time_lem :
    (h m s : ℕ) (t : BackupParsedTime)
    → h < 100
    → m < 100
    → s < 100
    → read_time (clock_time h m s) t ≡ some (at_time h m s t)
unfolding read_time read_time_parts read_hour read_minute read_second
time_lem h m s t hh hm hs =
    rw (split-clock_time h m s, atoi-two_digits h hh, atoi-two_digits m hm, atoi-two_digits s hs)
      refl

abbrev at_date : ℕ → ℕ → ℕ → BackupParsedTime
at_date y mo d = record blank_time { year = y; month = mo; day = d }

get_time_lem :
    {Time : Type 0} (dates : Dates Time) (y mo d h m s : ℕ)
    → 0 < y
    → 0 < mo
    → 0 < d
    → get_time dates (at_time h m s (at_date y mo d)) ≡ some (dates.date y mo d h m s)
unfolding get_time set_hour
get_time_lem dates y mo d h m s py pm pd = ground arith

abbrev pub stamp_groups : ℕ → ℕ → ℕ → ℕ → ℕ → ℕ → List Text
stamp_groups y mo d h m s = four_digits y ∷ two_digits mo ∷ two_digits d ∷ clock_time h m s ∷ []

read_groups-stamp :
    (y mo d h m s : ℕ)
    → y < 10_000
    → mo < 100
    → d < 100
    → h < 100
    → m < 100
    → s < 100
    → read_groups
        (lit "%Y" ∷ lit "%m" ∷ lit "%d" ∷ lit "%T" ∷ [])
        (stamp_groups y mo d h m s)
        blank_time
      ≡ History.found (at_time h m s (at_date y mo d))
unfolding read_groups
read_groups-stamp y mo d h m s hy ho hd hh hm hs =
    rw
      (
        year_lem y blank_time hy,
        month_lem mo (record blank_time { year = y }) ho,
        day_lem d (record blank_time { year = y; month = mo }) hd,
        time_lem h m s (at_date y mo d) hh hm hs,
      )
      refl

-- A file whose name has the digits of a date under "%Y", "%m" and "%d" and of a time of day under
-- "%T", with no part of the date 0, and whose directory is not empty, is a backup of exactly that
-- date and time.
pub file_time-stamp :
    {Time : Type 0} (dates : Dates Time) (files : Files) (file : Text) (ns : List ℕ)
    (y mo d h m s : ℕ)
    → 0 < y
    → y < 10_000
    → 0 < mo
    → mo < 100
    → 0 < d
    → d < 100
    → h < 100
    → m < 100
    → s < 100
    → files.sizes file ≡ some ns
    → 0 < total_size ns
    → file_time dates files
        (lit "%Y" ∷ lit "%m" ∷ lit "%d" ∷ lit "%T" ∷ [])
        file
        (some (stamp_groups y mo d h m s))
      ≡ History.found (dates.date y mo d h m s ∷ [])
unfolding file_time time_unless_empty
file_time-stamp dates files file ns y mo d h m s py hy po ho pd hd hh hm hs listed full =
    let filled : (total_size ns == 0) ≡ false = ground arith in
    rw
      (
        read_groups-stamp y mo d h m s hy ho hd hh hm hs,
        listed,
        filled,
        get_time_lem dates y mo d h m s py po pd,
      )
      refl

scan_path-trailing :
    (p : Text) (scan : PathScan) → All (λ c. c ≢ b'%') p → scan_path (p ++ b'%' ∷ []) scan ≡ none
unfolding scan_path
scan_path-trailing [] scan h = refl
scan_path-trailing (c ∷ []) scan h = ground (arith, h.0)
scan_path-trailing (c ∷ d ∷ cs) scan h =
    let ih = scan_path-trailing (d ∷ cs) (add_character c scan) h.1 in ground (arith, h.0)

is_nil-append_one : (p : Text) (c : ℕ) → is_nil (p ++ c ∷ []) ≡ false
is_nil-append_one [] c = refl
is_nil-append_one (d ∷ p) c = refl

-- A path whose only `%` is its last character makes the function panic.
pub trailing_percent-panics :
    {Time : Type 0} (dates : Dates Time) (files : Files) (p : Text)
    → All (λ c. c ≢ b'%') p
    → get_backup_history dates files (p ++ b'%' ∷ []) ≡ History.panicked
unfolding get_backup_history scanned_times
trailing_percent-panics dates files p h =
    rw
      (
        is_nil-append_one p b'%',
        scan_path-trailing p (record { pattern = []; reg = []; ind = [] }) h,
      )
      refl
