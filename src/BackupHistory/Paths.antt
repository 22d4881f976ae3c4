-- ===== src/BackupHistory/Paths.antt =====
-- pkg/backuphistory/backuphistory.go: from a path with placeholders to the times of the backups.
-- The path is of ASCII characters. The file system and the package `regexp` are parameters.
use ciscollector_v.Common.{
  ℕ, ◌+◌, ◌==◌, Option, none, some, List, [], ◌∷◌, ◌++◌, Text, is_nil, if◌then◌else◌,
}
use ciscollector_v.Common.Maps.{lookup, text_eq}
use ciscollector_v.BackupHistory.ParsedTime.{
  BackupParsedTime, blank_time, PlaceholderUpdate, map_for_prefix, Dates, get_time,
}

-- What the loop over the path builds.
pub record PathScan : Type 0 where
  pub pattern : Text
  pub reg : Text
  pub ind : List Text

abbrev regex_at : Option PlaceholderUpdate → Text
regex_at none = []
regex_at (some u) = u.regex

abbrev pub placeholder : ℕ → Text
placeholder c = b'%' ∷ c ∷ []

unfoldable pub add_placeholder : Text → PathScan → PathScan
unfolding map_for_prefix lookup
add_placeholder p scan = record scan {
  pattern = scan.pattern ++ b'*' ∷ [];
  reg = scan.reg ++ (b'(' ∷ regex_at (lookup p map_for_prefix)) ++ b')' ∷ [];
  ind = scan.ind ++ p ∷ [];
}

unfoldable pub add_character : ℕ → PathScan → PathScan
add_character c scan = record scan { pattern = scan.pattern ++ c ∷ []; reg = scan.reg ++ c ∷ [] }

-- the loop over the path; the slice `backupPath[i:i+2]` panics on a `%` at the end
unfoldable pub scan_path : Text → PathScan → Option PathScan
unfolding add_placeholder add_character
scan_path [] scan = some scan
scan_path (c ∷ []) scan = if c == b'%' then none else some (add_character c scan)
scan_path (c ∷ d ∷ cs) scan =
    let jumped = scan_path cs (add_placeholder (placeholder d) scan) in
    let stepped = scan_path (d ∷ cs) (add_character c scan) in if c == b'%' then jumped else stepped

-- What `GetBackupHistory` comes to.
pub data History (A : Type 0) : Type 0 where
  path_required : History A
  no_placeholders : History A
  parse_failed : History A
  unreadable : History A
  invalid_time : History A
  panicked : History A
  -- `log.Fatal`
  fatal : History A
  found : A → History A

infixl 6 ◌then_read◌
abbrev pub ◌then_read◌ : {A B : Type 0} → History A → (A → History B) → History B
path_required then_read f = path_required
no_placeholders then_read f = no_placeholders
parse_failed then_read f = parse_failed
unreadable then_read f = unreadable
invalid_time then_read f = invalid_time
panicked then_read f = panicked
fatal then_read f = fatal
found a then_read f = f a

-- What the function calls of other packages.
pub record Files : Type 0 where
  -- `filepath.Glob`; `none` is an error
  pub glob : Text → Option (List Text)
  -- `regexp.MustCompile`, then the groups of the first match in a file name
  pub compile : Text → Option (Text → Option (List Text))
  -- `os.ReadDir` and the sizes of what it lists
  pub sizes : Text → Option (List ℕ)

abbrev pub read_with : Option BackupParsedTime → History BackupParsedTime
read_with none = parse_failed
read_with (some t) = found t

-- a placeholder that the map does not have gives a nil function
unfoldable pub read_group : Text → Text → BackupParsedTime → History BackupParsedTime
unfolding map_for_prefix lookup
read_group p group t = elim (lookup p map_for_prefix) [
  | none ↦ panicked
  | some u ↦ read_with (u.time_parser_function group t)
]

-- the loop over the placeholders
unfoldable pub read_groups : List Text → List Text → BackupParsedTime → History BackupParsedTime
unfolding read_group
read_groups [] groups t = found t
read_groups (p ∷ ps) [] t = panicked
read_groups (p ∷ ps) (g ∷ groups) t = read_group p g t then_read read_groups ps groups

abbrev pub total_size : List ℕ → ℕ
total_size [] = 0
total_size (n ∷ ns) = n + total_size ns

module _ {Time : Type 0} (dates : Dates Time) (files : Files) where
  abbrev pub time_of : Option Time → History (List Time)
  time_of none = invalid_time
  time_of (some t) = found (t ∷ [])

  -- an empty directory is no backup
  unfoldable pub time_unless_empty : BackupParsedTime → Option (List ℕ) → History (List Time)
  unfolding get_time
  time_unless_empty t none = unreadable
  time_unless_empty t (some ns) =
      if total_size ns == 0 then found [] else time_of (get_time dates t)

  -- one pass of the loop over the files
  unfoldable pub file_time : List Text → Text → Option (List Text) → History (List Time)
  unfolding read_groups time_unless_empty
  file_time ind file none = found []
  file_time ind file (some groups) =
      read_groups ind groups blank_time then_read λ t. time_unless_empty t (files.sizes file)

  unfoldable pub file_times :
      (Text → Option (List Text)) → List Text → List Text → History (List Time)
  unfolding file_time
  file_times match ind [] = found []
  file_times match ind (file ∷ rest) = file_time ind file (match file) then_read λ ts.
      file_times match ind rest then_read λ us. found (ts ++ us)

  unfoldable pub compiled_times :
      List Text → List Text → Option (Text → Option (List Text)) → History (List Time)
  unfolding file_times
  compiled_times ind names none = panicked
  compiled_times ind names (some match) = file_times match ind names

  unfoldable pub globbed_times : PathScan → Option (List Text) → History (List Time)
  unfolding compiled_times
  globbed_times scan none = fatal
  globbed_times scan (some names) = compiled_times scan.ind names (files.compile scan.reg)

  unfoldable pub scanned_times : Option PathScan → History (List Time)
  unfolding globbed_times
  scanned_times none = panicked
  scanned_times (some scan) =
      if is_nil scan.ind then no_placeholders else globbed_times scan (files.glob scan.pattern)

  -- `GetBackupHistory`
  unfoldable pub get_backup_history : Text → History (List Time)
  unfolding scan_path scanned_times
  get_backup_history path =
      if is_nil path
      then path_required
      else scanned_times (scan_path path (record { pattern = []; reg = []; ind = [] }))
