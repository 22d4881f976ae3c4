-- ===== src/LogParser/ParsedData.antt =====
-- logline_prefix_parser.go: the getters of `parsedData`.
use ciscollector_v.Common.{
  ℕ, ◌+◌, ◌||◌, Option, none, some, List, [], ◌∷◌, Text, lit, beq, contains, split, get_elem?,
  if◌then◌else◌,
}
use ciscollector_v.Common.Options.{◌>>=◌}
use ciscollector_v.Utils.Containers.{get}

-- `parsingIndex`
pub record ParsingIndex : Type 0 where
  pub time_index : Option ℕ
  pub user_index : Option ℕ
  pub host_index : Option ℕ
  pub database_index : Option ℕ
  pub error_code_index : Option ℕ

-- `parsedData`, for a type of times
pub record ParsedData (Time : Type 0) : Type 0 where
  pub level_index : ℕ
  pub index : ParsingIndex
  pub data_parts : List Text
  pub parsed_time : Option Time

-- a group that is there, and is none of the two values for "no value"
value_at : List Text → Option ℕ → Text → Option Text
unfolding get
value_at parts index missing = do
  i ← index
  if beq (get parts i) [] || beq (get parts i) missing then none else some (get parts i)

abbrev pub first_or_blank : List Text → Text
first_or_blank [] = []
first_or_blank (w ∷ ws) = w

-- `strings.Split(h, "(")[0]` if `h` has a "("
unfoldable pub cut_port : Text → Text
unfolding contains split
cut_port h = if contains h (lit "(") then first_or_blank (split b'(' h) else h

module _ {Time : Type 0} where
  unfoldable pub get_user : ParsedData Time → Option Text
  unfolding value_at beq
  get_user b = value_at b.data_parts b.index.user_index (lit "[unknown]")

  unfoldable pub get_host : ParsedData Time → Option Text
  unfolding value_at beq cut_port
  get_host b = do h ← value_at b.data_parts b.index.host_index (lit "[unknown]"); some (cut_port h)

  unfoldable pub get_database : ParsedData Time → Option Text
  unfolding value_at beq
  get_database b = value_at b.data_parts b.index.database_index (lit "[unknown]")

  unfoldable pub get_error_code : ParsedData Time → Option Text
  unfolding value_at beq
  get_error_code b = value_at b.data_parts b.index.error_code_index (lit "00000")

  unfoldable pub get_log_level : ParsedData Time → Text
  unfolding get
  get_log_level b = get b.data_parts b.level_index

  -- `none` is an index out of range
  unfoldable pub get_description : ParsedData Time → Option Text
  get_description b = get_elem? b.data_parts (b.level_index + 1)
