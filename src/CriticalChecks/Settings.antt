-- ===== src/CriticalChecks/Settings.antt =====
-- guc_extract.go and the accessors of critical_checks_resolve.go: the settings that a manual check
-- shows. A cell of a table is its text. The encoding of other data as JSON is a parameter.
use ciscollector_v.Common.{
  ℕ, ◌+◌, Bool, false, not, ◌&&◌, ◌||◌, Option, none, some, List, [], ◌∷◌, ◌++◌, Text, lit, beq,
  length, get_elem?, trim_space, to_lower, equal_fold, is_nil, join, ltb, leb, ◌==◌, any, all,
  contains_text, if◌then◌else◌,
}
use ciscollector_v.Common.Options.{◌>>=◌}
use ciscollector_v.Utils.Chunks.{size}
use ciscollector_v.Common.Maps.{Map, insert, text_eq}

-- `SimpleTable`
pub record SimpleTable : Type 0 where
  pub columns : List Text
  pub rows : List (List Text)

-- `ManualCheckTableDescriptionAndList`
pub record ManualCheck : Type 0 where
  pub description : Text
  pub list : List Text
  pub table : Option SimpleTable

-- `ManualCheckData`: nothing, the one type of the package, or a value of another type, as the text of
-- its JSON and the table that is found in it
pub data ManualCheckData : Type 0 where
  absent : ManualCheckData
  table_check : ManualCheck → ManualCheckData
  other : Text → Option SimpleTable → ManualCheckData

-- `model.Result`, the fields that the checks read
pub record CisResult : Type 0 where
  pub fail_reason : Text
  pub status : Text
  pub description : Text
  pub control : Text
  pub title : Text
  pub procedure : Text
  pub manual_check_data : ManualCheckData

-- What is taken from other packages.
pub record Tools : Type 0 where
  -- `ManualCheckTableDescriptionAndList.Text`, which renders with the package tablewriter
  pub render : ManualCheck → Text
  -- `rePasswordEncryption.FindStringSubmatch`
  pub password_encryption : Text → Option (List Text)

abbrev is_digit : ℕ → Bool
is_digit c = leb b'0' c && leb c b'9'

abbrev is_lower : ℕ → Bool
is_lower c = leb b'a' c && leb c b'z'

abbrev is_upper : ℕ → Bool
is_upper c = leb b'A' c && leb c b'Z'

unfoldable pub has_character : ℕ → Text → Bool
unfolding any
has_character d s = any (λ c. c == d) s

-- `looksLikeControlID`, on a trimmed text that is not empty
unfoldable pub looks_like_control_id : Text → Bool
unfolding has_character all
looks_like_control_id s = has_character b'.' s && all (λ c. is_digit c || c == b'.') s

-- `reSnakeGucName`
unfoldable pub snake_guc_name : Text → Bool
unfolding all
snake_guc_name [] = false
snake_guc_name (c ∷ cs) = is_lower c && all (λ d. is_lower d || is_digit d || d == b'_') cs

-- `reCamelGucName`
unfoldable pub camel_guc_name : Text → Bool
unfolding all
camel_guc_name [] = false
camel_guc_name (c ∷ cs) = is_upper c && all (λ d. is_lower d || is_upper d || is_digit d) cs

abbrev pub guc_title_blocklist : List Text
guc_title_blocklist = lit "postmaster" ∷ lit "sighup" ∷ lit "superuser" ∷ lit "user" ∷ []

-- `strings.ContainsAny(s, "/\\ .")`
unfoldable pub has_separator : Text → Bool
unfolding has_character
has_separator s =
    has_character b'/' s || has_character b'\\' s || has_character b' ' s || has_character b'.' s

-- `looksLikePostgresGucName`, on a trimmed text
unfoldable pub trimmed_guc_name : Text → Bool
unfolding looks_like_control_id has_separator snake_guc_name camel_guc_name size contains_text all
trimmed_guc_name s =
    not (is_nil s || ltb 64 (size s))
    && not (looks_like_control_id s)
    && not (has_separator s)
    && not (all is_digit s)
    && not (contains_text guc_title_blocklist (to_lower s))
    && (snake_guc_name s || camel_guc_name s)

unfoldable pub looks_like_postgres_guc_name : Text → Bool
unfolding trimmed_guc_name trim_space
looks_like_postgres_guc_name s = trimmed_guc_name (trim_space s)

-- the last column with a name, counted from a number
unfoldable pub column_index : Text → ℕ → List Text → Option ℕ → Option ℕ
unfolding trim_space beq
column_index name i [] found = found
column_index name i (c ∷ cs) found =
    column_index name (i + 1) cs (if beq (to_lower (trim_space c)) name then some i else found)

abbrev pub table_of : ManualCheckData → Option SimpleTable
table_of ManualCheckData.absent = none
table_of (ManualCheckData.table_check c) = c.table
table_of (ManualCheckData.other text table) = table

-- the two cells of a row, if it has both and the first is the name of a setting
unfoldable pub setting_of : ℕ → ℕ → List Text → Option (Text × Text)
unfolding trim_space looks_like_postgres_guc_name
setting_of name_idx setting_idx cells = get_elem? cells name_idx >>= λ name.
    get_elem? cells setting_idx >>= λ setting.
    (if looks_like_postgres_guc_name (trim_space name)
      then some (trim_space name, trim_space setting)
      else none)

unfoldable pub add_setting : Option (Text × Text) → Map Text Text → Map Text Text
unfolding insert
add_setting none out = out
add_setting (some (name, setting)) out = insert name setting out

-- the loop over the rows
unfoldable pub settings_of : ℕ → ℕ → List (List Text) → Map Text Text → Map Text Text
unfolding setting_of add_setting
settings_of name_idx setting_idx [] out = out
settings_of name_idx setting_idx (row ∷ rows) out =
    settings_of name_idx setting_idx rows (add_setting (setting_of name_idx setting_idx row) out)

unfoldable pub indexed_settings : Option ℕ → Option ℕ → List (List Text) → Map Text Text
unfolding settings_of
indexed_settings (some n) (some s) rows = settings_of n s rows []
indexed_settings (some n) none rows = []
indexed_settings none s rows = []

unfoldable pub table_settings : Option SimpleTable → Map Text Text
unfolding indexed_settings column_index
table_settings none = []
table_settings (some t) =
    if ltb (length t.columns) 2 || is_nil t.rows
    then []
    else indexed_settings (column_index (lit "name") 0 t.columns none)
        (column_index (lit "setting") 0 t.columns none) t.rows

-- `gucValuesFromManualCheck`
unfoldable pub guc_values_from_manual_check : CisResult → Map Text Text
unfolding table_settings
guc_values_from_manual_check r = table_settings (table_of r.manual_check_data)

-- the loop of `gucSettingValue`; Go leaves the order of the map open
unfoldable pub find_setting : Text → Map Text Text → Text
unfolding equal_fold
find_setting guc [] = []
find_setting guc ((name, val) ∷ m) = if equal_fold name guc then val else find_setting guc m

-- `gucSettingValue`
unfoldable pub guc_setting_value : CisResult → Text → Text
unfolding guc_values_from_manual_check find_setting
guc_setting_value r guc = find_setting guc (guc_values_from_manual_check r)

module _ (tools : Tools) where
  unfoldable pub check_text : ManualCheck → Text
  unfolding join
  check_text c =
      c.description
      ++ (lit " " ++ join (lit " ") c.list)
      ++ elim c.table [ none ↦ [] | some t ↦ lit " " ++ tools.render c ]

  -- `manualCheckText`
  unfoldable pub manual_check_text : ManualCheckData → Text
  unfolding check_text
  manual_check_text ManualCheckData.absent = []
  manual_check_text (ManualCheckData.table_check c) = check_text c
  manual_check_text (ManualCheckData.other text table) = text

  -- `cisSearchBlob`
  unfoldable pub cis_search_blob : CisResult → Text
  unfolding manual_check_text join
  cis_search_blob r = to_lower (
      join (lit " ") (
        r.control
        ∷ r.title
        ∷ r.description
        ∷ r.fail_reason
        ∷ r.procedure
        ∷ manual_check_text r.manual_check_data
        ∷ []))

-- `manualCheckList`
abbrev pub manual_check_list : ManualCheckData → List Text
manual_check_list ManualCheckData.absent = []
manual_check_list (ManualCheckData.table_check c) = c.list
manual_check_list (ManualCheckData.other text table) = []

abbrev table_rows : Option SimpleTable → Option (List (List Text))
table_rows none = none
table_rows (some t) = some t.rows

-- `manualCheckRows`
abbrev pub manual_check_rows : ManualCheckData → Option (List (List Text))
manual_check_rows ManualCheckData.absent = none
manual_check_rows (ManualCheckData.table_check c) = table_rows c.table
manual_check_rows (ManualCheckData.other text table) = none
