-- ===== src/HbaRules/Files.antt =====
-- hba_helpers.go: `ScanHBAFile`, from the lines of pg_hba.conf to its rules, with the list files
-- and the roles that stand for several names. The files, the database and the regular expression
-- are parameters.
use ciscollector_v.Common.{
  ℕ, ◌+◌, Bool, not, ◌||◌, Option, none, some, List, [], ◌∷◌, ◌++◌, Text, lit, split, join,
  trim_space, has_prefix, is_nil, keep, map, if◌then◌else◌, ◌==◌,
}
use ciscollector_v.Common.Options.{◌>>=◌}
use ciscollector_v.HbaRules.Parse.{HbaFileRules}
use ciscollector_v.Utils.Containers.{get}

-- What the functions read from outside.
pub record Sources : Type 0 where
  -- the lines of a file by its path; `none` is an error of `os.Open` or of the scanner
  pub read_lines : Text → Option (List Text)
  -- `filepath.Join(filepath.Dir(hbaFilePath), filename)`
  pub beside : Text → Text → Text
  -- `GetUserForGivenRole`, if there is a database connection
  pub role_users : Option (Text → Option (List Text))
  -- `FindStringSubmatch` of the expression for a rule
  pub match_rule : Text → Option (List Text)

abbrev is_text : Text → Bool
is_text t = not (is_nil t)

module _ (io : Sources) where
  -- `loadListFile`
  unfoldable pub load_list_file : Text → Option (List Text)
  unfolding keep trim_space
  load_list_file filename =
      io.read_lines filename >>= λ lines. some (keep is_text (map trim_space lines))

  -- the branch of a role: the role itself and its users
  unfoldable pub role_names : Option (Text → Option (List Text)) → Text → Option (List Text)
  role_names none role = none
  role_names (some users) role = users role >>= λ us. some (role ∷ us)

  -- the names that one item of the list stands for; `none` is the returned error
  unfoldable pub item_names : Text → Text → Option (List Text)
  unfolding load_list_file role_names
  item_names hba_file_path [] = some []
  item_names hba_file_path (c ∷ cs) =
      if c == b'@'
      then load_list_file (io.beside hba_file_path cs)
      else if c == b'+'
      then role_names io.role_users cs
      else some ((c ∷ cs) ∷ [])

  unfoldable pub updated_list : Text → List Text → Option (List Text)
  unfolding item_names
  updated_list hba_file_path [] = some []
  updated_list hba_file_path (item ∷ items) = item_names hba_file_path item >>= λ names.
      updated_list hba_file_path items >>= λ rest. some (names ++ rest)

  -- `updateStringWithFilenameOrRolename`
  unfoldable pub update_string_with_filename_or_rolename : Text → Text → Option Text
  unfolding updated_list split join
  update_string_with_filename_or_rolename str hba_file_path =
      updated_list hba_file_path (split b',' str) >>= λ names. some (join (lit ",") names)

  -- the expression has six groups, so no index is out of range
  unfoldable pub rule_of_match : ℕ → Text → Text → List Text → Option HbaFileRules
  unfolding update_string_with_filename_or_rolename get
  rule_of_match line_number line hba_file_path match =
      update_string_with_filename_or_rolename (get match 3) hba_file_path >>= λ username.
      update_string_with_filename_or_rolename (get match 2) hba_file_path >>= λ db. some (record {
        line_number = line_number;
        database = db;
        user_name = username;
        address = get match 4;
        net_mask = get match 5;
        raw = line;
      })

  -- `ParseHBALine`
  unfoldable pub parse_hba_line : ℕ → Text → Text → Option HbaFileRules
  unfolding rule_of_match
  parse_hba_line line_number line hba_file_path =
      io.match_rule line >>= rule_of_match line_number line hba_file_path

  -- the lines that hold no rule for a host
  abbrev pub is_ignored : Text → Bool
  is_ignored line = has_prefix line (lit "#") || is_nil line || has_prefix line (lit "local")

  -- one pass of the loop, on a trimmed line; a line with an error is skipped with a warning
  unfoldable pub rule_at : Text → ℕ → Text → Option HbaFileRules
  unfolding parse_hba_line has_prefix
  rule_at hba_file_path line_number line =
      if is_ignored line then none else parse_hba_line line_number line hba_file_path

  abbrev cons_some : Option HbaFileRules → List HbaFileRules → List HbaFileRules
  cons_some none rules = rules
  cons_some (some rule) rules = rule ∷ rules

  -- the loop over the lines, with the number of the last one
  unfoldable pub scan_lines : Text → ℕ → List Text → List HbaFileRules
  unfolding rule_at trim_space
  scan_lines hba_file_path line_number [] = []
  scan_lines hba_file_path line_number (line ∷ lines) =
      cons_some (rule_at hba_file_path (line_number + 1) (trim_space line))
        (scan_lines hba_file_path (line_number + 1) lines)

  -- `ScanHBAFile`
  unfoldable pub scan_hba_file : Text → Option (List HbaFileRules)
  unfolding scan_lines
  scan_hba_file hba_file_path =
      io.read_lines hba_file_path >>= λ lines. some (scan_lines hba_file_path 0 lines)
