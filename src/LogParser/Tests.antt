-- ===== src/LogParser/Tests.antt =====
-- A log of two lines. A time is the text itself if it is its format.
use ciscollector_v.Common.{
  ◌≡◌, refl, sym, ◌∙◌, Bool, false, not, inl, inr, Bool-cases, true, ◌||◌, Option, none, some, List,
  [], ◌∷◌, Text, lit, beq, contains, All, any, map, if◌then◌else◌,
}
use ciscollector_v.Utils.Containers.{get, LockSet, is_available}
use ciscollector_v.HbaRules.Defs.{HbaFileRule, new_hba_file_rule}
use ciscollector_v.LogParser.ParsedData.{ParsingIndex, ParsedData, get_description}
use ciscollector_v.LogParser.BaseParser.{
  BaseParser, parse, parse_all, IsUnambiguous, parse_all-fresh,
}
use ciscollector_v.LogParser.Feeds.{
  PgSettings, Patterns, IsComplete, unique_ip_feed, hba_unused_feed, feed_all,
}
use ciscollector_v.LogParser.Addresses.{adds, ip_key, unique_ip_feed-addresses}
use ciscollector_v.LogParser.HbaLines.{Shrinks, hba_unused_feed-report}

abbrev settings : PgSettings
settings = record { log_line_prefix = lit "%u %h "; log_connections = true }

-- a message that has the word matches, with the word as each of its groups
abbrev finds : Text → Text → Option (List Text)
finds word t = if contains t word then some (t ∷ word ∷ word ∷ word ∷ []) else none

abbrev patterns : Patterns
patterns = record {
  connection_received = finds (lit "10.0.0.9");
  connection_authorized = finds (lit "reporter");
  password_literal = finds (lit "hunter2");
}

abbrev indices : ParsingIndex
indices = record {
  time_index = some 1;
  user_index = some 1;
  host_index = some 2;
  database_index = none;
  error_code_index = none;
}

abbrev line_of : List Text → ParsedData Text
line_of parts = record { level_index = 3; index = indices; data_parts = parts; parsed_time = none }

abbrev small_log : List (ParsedData Text)
small_log =
    line_of ([] ∷ lit "app" ∷ lit "10.0.0.1" ∷ lit "LOG" ∷ lit "disconnection" ∷ [])
    ∷ line_of ([] ∷ [] ∷ [] ∷ lit "LOG" ∷ lit "alter role x password 'hunter2'" ∷ [])
    ∷ []

small_log-IsComplete : All IsComplete small_log
unfolding get_description
small_log-IsComplete =
    ((lit "disconnection", refl), ((lit "alter role x password 'hunter2'", refl), tt))

unique_ip_feed-addresses_example :
    (s' : LockSet) × (feed_all (unique_ip_feed settings patterns) [] small_log ≡ some s')
    × ((j : Text)
        → is_available j s'
          ≡ (any (λ d. adds j (ip_key settings patterns d)) small_log || is_available j []))
unique_ip_feed-addresses_example =
    unique_ip_feed-addresses settings patterns small_log [] small_log-IsComplete

hba_unused_feed-report_example :
    (r' : HbaFileRule) × (feed_all (hba_unused_feed settings patterns) new_hba_file_rule small_log
      ≡ some r')
    × Shrinks new_hba_file_rule r'
hba_unused_feed-report_example =
    hba_unused_feed-report settings patterns small_log new_hba_file_rule small_log-IsComplete

-- A time is its text. The format with digits wants a sign, and the one with a name wants none, but
-- for "+0000", which both read.
abbrev parse_text_time : Text → Text → Option Text
parse_text_time format t =
    if contains format (lit "MST")
    then (if contains t (lit " +0000") || not (contains t (lit " +")) then some t else none)
    else if contains t (lit " +")
    then some t
    else none

-- the two formats of the program
abbrev two_formats : BaseParser
two_formats = record {
  regex = λ t. some (t ∷ t ∷ []);
  time_format = lit "2006-01-02 15:04:05 -0700";
  time_format_alt = lit "2006-01-02 15:04:05 MST";
  index = indices;
  level_index = 1;
}

abbrev zone_lines : List Text
zone_lines =
    lit "2024-05-31 17:08:09 UTC"
    ∷ lit "2024-05-31 17:08:10 +0530"
    ∷ lit "2024-05-31 17:08:11 +0000"
    ∷ []

if-some : {A : Type 0} {x y : A} (c : Bool) → (if c then some x else none) ≡ some y → x ≡ y
if-some true e = cc
if-some false e = cc

parse_text_time-same : (f t : Text) {x : Text} → parse_text_time f t ≡ some x → t ≡ x
parse_text_time-same f t e = elim (Bool-cases (contains f (lit "MST"))) [
  | inl m ↦ if-some _ (rw m at e)
  | inr m ↦ if-some _ (rw m at e)
]

abbrev is_some : {A : Type 0} → Option A → Bool
is_some none = false
is_some (some x) = true

two_formats-IsUnambiguous : (t : Text) → IsUnambiguous parse_text_time two_formats t
two_formats-IsUnambiguous t parts i x y r e p q =
    sym (parse_text_time-same two_formats.time_format (get parts i) p)
    ∙ parse_text_time-same two_formats.time_format_alt (get parts i) q

-- The first line swaps the formats.
zone_runs : map is_some (parse_all parse_text_time two_formats zone_lines) ≡ true ∷ true ∷ true ∷ []
unfolding parse_all contains beq parse
zone_runs = refl

parse_all-fresh_example :
    parse_all parse_text_time two_formats zone_lines
    ≡ map (λ line. (parse parse_text_time two_formats line).1) zone_lines
parse_all-fresh_example =
    parse_all-fresh parse_text_time two_formats zone_lines (
      two_formats-IsUnambiguous _,
      (two_formats-IsUnambiguous _, (two_formats-IsUnambiguous _, tt)),
    )
