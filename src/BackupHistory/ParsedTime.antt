-- ===== src/BackupHistory/ParsedTime.antt =====
-- pkg/backuphistory/backuphistory.go: the placeholders of a path, what each reads into the parsed
-- time, and the time that comes of it. Years, days and hours are natural numbers: a number that a
-- placeholder reads is one that its regular expression matched, which has digits alone.
use ciscollector_v.Common.{
  ℕ, ◌+◌, ◌-◌, ◌*◌, Bool, true, false, not, ◌&&◌, ◌==◌, leb, Option, none, some, List, [], ◌∷◌,
  Text, lit, beq, split, get_elem?, is_nil, all, if◌then◌else◌,
}
use ciscollector_v.Common.Options.{◌>>=◌}
use ciscollector_v.Common.Maps.{Map, lookup, text_eq}

-- `strconv.Atoi`, on digits
abbrev is_digit : ℕ → Bool
is_digit c = leb b'0' c && leb c b'9'

unfoldable pub digits_onto : ℕ → Text → ℕ
digits_onto n [] = n
digits_onto n (c ∷ cs) = digits_onto (n * 10 + (c - b'0')) cs

unfoldable pub atoi : Text → Option ℕ
unfolding digits_onto all
atoi s = if is_nil s then none else if all is_digit s then some (digits_onto 0 s) else none

-- a Go map of numbers gives 0 for a key that is not there
abbrev or_zero : Option ℕ → ℕ
or_zero none = 0
or_zero (some n) = n

-- `weekDayMap`
abbrev pub week_day_map : Map Text ℕ
week_day_map =
    (lit "Monday", 1)
    ∷ (lit "Tuesday", 2)
    ∷ (lit "Wednesday", 3)
    ∷ (lit "Thursday", 4)
    ∷ (lit "Friday", 5)
    ∷ (lit "Saturday", 6)
    ∷ (lit "Sunday", 7)
    ∷ (lit "Mon", 1)
    ∷ (lit "Tue", 2)
    ∷ (lit "Wed", 3)
    ∷ (lit "Thu", 4)
    ∷ (lit "Fri", 5)
    ∷ (lit "Sat", 6)
    ∷ (lit "Sun", 7)
    ∷ []

-- `monthMap`
abbrev pub month_map : Map Text ℕ
month_map =
    (lit "January", 1)
    ∷ (lit "February", 2)
    ∷ (lit "March", 3)
    ∷ (lit "April", 4)
    ∷ (lit "May", 5)
    ∷ (lit "June", 6)
    ∷ (lit "July", 7)
    ∷ (lit "August", 8)
    ∷ (lit "September", 9)
    ∷ (lit "October", 10)
    ∷ (lit "November", 11)
    ∷ (lit "December", 12)
    ∷ (lit "Jan", 1)
    ∷ (lit "Feb", 2)
    ∷ (lit "Mar", 3)
    ∷ (lit "Apr", 4)
    ∷ (lit "Jun", 6)
    ∷ (lit "Jul", 7)
    ∷ (lit "Aug", 8)
    ∷ (lit "Sep", 9)
    ∷ (lit "Oct", 10)
    ∷ (lit "Nov", 11)
    ∷ (lit "Dec", 12)
    ∷ []

-- `backupParsedTime`
pub record BackupParsedTime : Type 0 where
  pub year : ℕ
  pub month : ℕ
  pub day : ℕ
  pub hour : ℕ
  pub minute : ℕ
  pub second : ℕ
  pub add12_in_hour : Bool
  pub weekday : ℕ
  pub week_num : ℕ

-- `backupParsedTime{}`
abbrev pub blank_time : BackupParsedTime
blank_time = record {
  year = 0;
  month = 0;
  day = 0;
  hour = 0;
  minute = 0;
  second = 0;
  add12_in_hour = false;
  weekday = 0;
  week_num = 0;
}

-- What a placeholder reads; `none` is the error that it returns.
abbrev pub Reader : Type 0
Reader = Text → BackupParsedTime → Option BackupParsedTime

unfoldable pub read_year : Reader
unfolding atoi
read_year s t = atoi s >>= λ n. some (record t { year = n })

unfoldable pub read_month : Reader
unfolding atoi
read_month s t = atoi s >>= λ n. some (record t { month = n })

unfoldable pub read_day : Reader
unfolding atoi
read_day s t = atoi s >>= λ n. some (record t { day = n })

-- an hour of the afternoon keeps its place on a clock of twelve hours
unfoldable pub set_hour : ℕ → BackupParsedTime → BackupParsedTime
set_hour n t =
    if leb 12 n then record t { hour = n - 12; add12_in_hour = true } else record t { hour = n }

unfoldable pub read_hour : Reader
unfolding atoi set_hour
read_hour s t = atoi s >>= λ n. some (set_hour n t)

unfoldable pub read_minute : Reader
unfolding atoi
read_minute s t = atoi s >>= λ n. some (record t { minute = n })

unfoldable pub read_second : Reader
unfolding atoi
read_second s t = atoi s >>= λ n. some (record t { second = n })

unfoldable pub read_weekday : Reader
unfolding lookup
read_weekday s t = some (record t { weekday = or_zero (lookup s week_day_map) })

-- `%W` drops the error of `Atoi`, whose number is then 0
unfoldable pub read_week_num : Reader
unfolding atoi
read_week_num s t = some (record t { week_num = or_zero (atoi s) })

unfoldable pub read_month_name : Reader
unfolding lookup
read_month_name s t = some (record t { month = or_zero (lookup s month_map) })

unfoldable pub read_half : Reader
unfolding beq
read_half s t = some (record t { add12_in_hour = beq s (lit "P") })

unfoldable pub read_hour12 : Reader
unfolding atoi
read_hour12 s t = atoi s >>= λ n. some (record t { hour = n })

-- three parts, of which the regular expression makes sure
unfoldable pub read_time_parts : List Text → BackupParsedTime → Option BackupParsedTime
unfolding read_hour read_minute read_second
read_time_parts v t = get_elem? v 0 >>= λ h. read_hour h t >>= λ t1.
    get_elem? v 1 >>= λ m. read_minute m t1 >>= λ t2. get_elem? v 2 >>= λ s. read_second s t2

unfoldable pub read_time : Reader
unfolding read_time_parts split
read_time s t = read_time_parts (split b':' s) t

unfoldable pub read_date_parts : List Text → BackupParsedTime → Option BackupParsedTime
unfolding read_day read_month read_year
read_date_parts v t = get_elem? v 0 >>= λ d. read_day d t >>= λ t1.
    get_elem? v 1 >>= λ m. read_month m t1 >>= λ t2. get_elem? v 2 >>= λ y. read_year y t2

unfoldable pub read_date : Reader
unfolding read_date_parts split
read_date s t = read_date_parts (split b'/' s) t

-- `placeholderUpdate`
pub record PlaceholderUpdate : Type 0 where
  pub regex : Text
  pub time_parser_function : Reader

abbrev two_digits_regex : Text
two_digits_regex = lit "\\d{2}"

abbrev word_regex : Text
word_regex = lit "\\w+"

-- `mapForPrefix`
unfoldable pub map_for_prefix : Map Text PlaceholderUpdate
unfolding read_year read_month read_day read_hour read_minute read_second read_weekday read_week_num
    read_month_name read_half read_hour12 read_time read_date
map_for_prefix =
    (lit "%Y", record { regex = lit "\\d{4}"; time_parser_function = read_year })
    ∷ (lit "%y", record { regex = two_digits_regex; time_parser_function = read_year })
    ∷ (lit "%m", record { regex = two_digits_regex; time_parser_function = read_month })
    ∷ (lit "%d", record { regex = two_digits_regex; time_parser_function = read_day })
    ∷ (lit "%H", record { regex = two_digits_regex; time_parser_function = read_hour })
    ∷ (lit "%M", record { regex = two_digits_regex; time_parser_function = read_minute })
    ∷ (lit "%S", record { regex = two_digits_regex; time_parser_function = read_second })
    ∷ (lit "%A", record { regex = word_regex; time_parser_function = read_weekday })
    ∷ (lit "%a", record { regex = word_regex; time_parser_function = read_weekday })
    ∷ (lit "%w", record { regex = lit "\\d{1,2}"; time_parser_function = read_weekday })
    ∷ (lit "%W", record { regex = lit "\\d{1,2}"; time_parser_function = read_week_num })
    ∷ (lit "%B", record { regex = word_regex; time_parser_function = read_month_name })
    ∷ (lit "%b", record { regex = word_regex; time_parser_function = read_month_name })
    ∷ (lit "%p", record { regex = word_regex; time_parser_function = read_half })
    ∷ (lit "%I", record { regex = two_digits_regex; time_parser_function = read_hour12 })
    ∷ (lit "%T", record { regex = lit "\\d{2}:\\d{2}:\\d{2}"; time_parser_function = read_time })
    ∷ (lit "%D", record { regex = lit "\\d{2}/\\d{2}/\\d{4}"; time_parser_function = read_date })
    ∷ []

-- What `GetTime` calls of the package `time`.
pub record Dates (Time : Type 0) : Type 0 where
  -- `time.Date`, from the year down to the second, in the local zone
  pub date : ℕ → ℕ → ℕ → ℕ → ℕ → ℕ → Time
  -- `AddDate(0, 0, n)`
  pub add_days : ℕ → Time → Time

-- `GetTime`; `none` is the error "invalid time"
unfoldable pub get_time : {Time : Type 0} → Dates Time → BackupParsedTime → Option Time
get_time dates t =
    if not (t.year == 0) && not (t.month == 0) && not (t.day == 0)
    then some (
        dates.date t.year t.month t.day (t.hour + (if t.add12_in_hour then 12 else 0)) t.minute
          t.second)
    else if not (t.weekday == 0) && not (t.week_num == 0) && not (t.year == 0)
    then some (dates.add_days ((t.weekday - 1) * 7 + t.week_num) (dates.date t.year 1 1 0 0 0))
    else none
