-- ===== src/LogParser/Prefix.antt =====
-- dynamic_parser.go: the regular expression and the group indices of a `log_line_prefix` of ASCII
-- characters. The packages' `regexp.QuoteMeta` and the compiler of expressions are parameters.
pub mod Groups
pub mod Level
mod Tests
use ciscollector_v.Common.{
  ℕ, ◌+◌, Bool, true, false, Option, none, some, List, [], ◌∷◌, ◌++◌, Text, lit, beq, length, ◌==◌,
  if◌then◌else◌,
}
use ciscollector_v.Common.Options.{◌>>=◌}
use ciscollector_v.Common.Maps.{Map, lookup, insert, text_eq}
use ciscollector_v.LogParser.ParsedData.{ParsingIndex}
use ciscollector_v.LogParser.BaseParser.{BaseParser}

abbrev pub reg_exp_date : Text
reg_exp_date = lit "\\d{4}-\\d{2}-\\d{2}"

abbrev pub reg_exp_time : Text
reg_exp_time = lit "\\d{2}:\\d{2}:\\d{2}"

abbrev pub reg_exp_timezone : Text
reg_exp_timezone = lit "[\\-+]?\\w+"

abbrev pub reg_exp_timestamp_with_microsecond : Text
reg_exp_timestamp_with_microsecond =
    lit "("
    ++ (reg_exp_date
        ++ (lit " "
            ++ (reg_exp_time ++ (lit "\\.\\d+" ++ (lit " " ++ (reg_exp_timezone ++ lit ")"))))))

abbrev pub reg_exp_timestamp_without_microsecond : Text
reg_exp_timestamp_without_microsecond =
    lit "("
    ++ (reg_exp_date ++ (lit " " ++ (reg_exp_time ++ (lit " " ++ (reg_exp_timezone ++ lit ")")))))

abbrev pub reg_exp_level : Text
reg_exp_level =
    lit
      "(DEBUG5|DEBUG4|DEBUG3|DEBUG2|DEBUG1|INFO|NOTICE|LOG|WARNING|ERROR|FATAL|PANIC|DETAIL|HINT|STATEMENT|CONTEXT|LOCATION):"

abbrev pub reg_exp_content : Text
reg_exp_content = lit "\\s+(.*)$"

-- `regexMap`
abbrev pub regex_map : Map Text Text
regex_map =
    (lit "%m", reg_exp_timestamp_with_microsecond)
    ∷ (lit "%t", reg_exp_timestamp_without_microsecond)
    ∷ (lit "%s", reg_exp_timestamp_without_microsecond)
    ∷ (lit "%p", lit "(\\d+)")
    ∷ (lit "%u", lit "(\\S*)")
    ∷ (lit "%d", lit "(\\S*)")
    ∷ (lit "%a", lit "(\\S*)")
    ∷ (lit "%h", lit "(\\S+)?")
    ∷ (lit "%r", lit "(\\S+\\(.*?\\))?")
    ∷ (lit "%v", lit "(\\d+\\/\\d+)?")
    ∷ (lit "%l", lit "(\\d+)")
    ∷ (lit "%e", lit "(\\w{5})")
    ∷ (lit "%x", lit "(\\d+)")
    ∷ (lit "%c", lit "(\\w+\\.\\w+)?")
    ∷ (lit "%b", lit "([\\w ]+)")
    ∷ []

-- The variables of the loop.
pub record Build : Type 0 where
  pub regexp_string : Text
  pub found_q : Bool
  pub index_map : Map Text ℕ
  pub crt_ind : ℕ

unfoldable pub add_literal : ℕ → Build → Build
add_literal c b = record b { regexp_string = b.regexp_string ++ c ∷ [] }

unfoldable pub add_optional : Build → Build
add_optional b = record b { regexp_string = b.regexp_string ++ lit "(?:"; found_q = true }

abbrev pub placeholder : ℕ → Text
placeholder d = b'%' ∷ d ∷ []

-- an unknown placeholder is left out
unfoldable pub add_known : Text → Option Text → Build → Build
unfolding insert
add_known k none b = b
add_known k (some expression) b = record b {
  regexp_string = b.regexp_string ++ expression;
  index_map = insert k b.crt_ind b.index_map;
  crt_ind = b.crt_ind + 1;
}

unfoldable pub add_placeholder : ℕ → Build → Build
unfolding add_optional add_known lookup
add_placeholder d b =
    if d == b'q'
    then add_optional b
    else add_known (placeholder d) (lookup (placeholder d) regex_map) b

-- the loop; an index past the end panics on a `%` that is last
unfoldable pub scan_pattern : Text → Build → Option Build
unfolding add_placeholder add_literal
scan_pattern [] b = some b
scan_pattern (c ∷ []) b = if c == b'%' then none else some (add_literal c b)
scan_pattern (c ∷ d ∷ cs) b =
    let jumped = scan_pattern cs (add_placeholder d b) in
    let stepped = scan_pattern (d ∷ cs) (add_literal c b) in if c == b'%' then jumped else stepped

abbrev pub blank_build : Build
blank_build = record { regexp_string = []; found_q = false; index_map = []; crt_ind = 2 }

abbrev pub close_optional : Bool → Text
close_optional b = if b then lit ")?" else []

-- the expression before the one for the level
abbrev pub before_level : Build → Text
before_level b = lit "(\\s*)" ++ (b.regexp_string ++ (close_optional b.found_q ++ lit "(\\s*)"))

abbrev pub finished : Build → Text × Map Text ℕ
finished b = (before_level b ++ (reg_exp_level ++ reg_exp_content), b.index_map)

unfoldable pub set_index : Text → ℕ → ParsingIndex → ParsingIndex
unfolding beq
set_index k v ix =
    if beq k (lit "%m")
    then record ix { time_index = some v }
    else if beq k (lit "%t")
    then record ix { time_index = some v }
    else if beq k (lit "%s")
    then record ix { time_index = some v }
    else if beq k (lit "%u")
    then record ix { user_index = some v }
    else if beq k (lit "%d")
    then record ix { database_index = some v }
    else if beq k (lit "%h")
    then record ix { host_index = some v }
    else if beq k (lit "%r")
    then record ix { host_index = some v }
    else if beq k (lit "%e")
    then record ix { error_code_index = some v }
    else ix

-- the loop over the map, in the order of its entries here; Go leaves the order open
unfoldable pub set_indices : Map Text ℕ → ParsingIndex → ParsingIndex
unfolding set_index
set_indices [] ix = ix
set_indices ((k, v) ∷ m) ix = set_indices m (set_index k v ix)

abbrev pub blank_index : ParsingIndex
blank_index = record {
  time_index = none;
  user_index = none;
  host_index = none;
  database_index = none;
  error_code_index = none;
}

module _ (quote_meta : Text → Text) where
  -- `GenerateRegexString`
  unfoldable pub generate_regex_string : Text → Option (Text × Map Text ℕ)
  unfolding scan_pattern
  generate_regex_string log_pattern =
      scan_pattern (quote_meta log_pattern) blank_build >>= λ b. some (finished b)

  abbrev parser_with : (Text → Option (List Text)) → Map Text ℕ → BaseParser
  parser_with regex index_map = record {
    regex = regex;
    time_format = lit "2006-01-02 15:04:05 -0700";
    time_format_alt = lit "2006-01-02 15:04:05 MST";
    index = set_indices index_map blank_index;
    level_index = length index_map + 3;
  }

  -- `GetDynamicBaseParser`; `none` is a panic
  unfoldable pub get_dynamic_base_parser :
      (Text → Option (Text → Option (List Text))) → Text → Option BaseParser
  unfolding generate_regex_string set_indices
  get_dynamic_base_parser compile log_pattern =
      generate_regex_string log_pattern >>= λ (text, index_map).
      compile text >>= λ regex. some (parser_with regex index_map)
