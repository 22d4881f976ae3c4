-- ===== src/ConfigDrift/Baseline.antt =====
-- postgresconfig/compareconfig.go: GUC values, and the comparison with a baseline.
use ciscollector_v.Common.{
  Bool, true, false, ◌&&◌, ◌||◌, Option, none, some, List, [], ◌∷◌, Text, lit, beq, trim_space,
  to_lower, equal_fold, map, contains_text, ltb, ◌==◌, if◌then◌else◌,
}
use ciscollector_v.Common.Maps.{Map, lookup, text_eq}

-- `DriftStatus`
pub data DriftStatus : Type 0 where
  drift_match : DriftStatus
  drift_diff : DriftStatus
  drift_missing : DriftStatus

-- `BaselineCompareRow`
pub record BaselineCompareRow : Type 0 where
  pub guc : Text
  pub baseline : Text
  pub live : Text
  pub status : DriftStatus

abbrev pub on_words : List Text
on_words = lit "on" ∷ lit "yes" ∷ lit "true" ∷ lit "1" ∷ []

abbrev pub off_words : List Text
off_words = lit "off" ∷ lit "no" ∷ lit "false" ∷ lit "0" ∷ []

-- the `switch` of `NormalizeGucValue`
unfoldable pub normal_word : Text → Text
unfolding contains_text beq
normal_word w =
    if contains_text on_words w
    then lit "on"
    else if contains_text off_words w
    then lit "off"
    else w

-- `NormalizeGucValue`
unfoldable pub normalize_guc_value : Text → Text
unfolding trim_space beq normal_word
normalize_guc_value v = if beq (trim_space v) [] then [] else normal_word (to_lower (trim_space v))

-- `gucValuesEqual`
unfoldable pub guc_values_equal : Text → Text → Bool
unfolding normalize_guc_value equal_fold
guc_values_equal a b = equal_fold (normalize_guc_value a) (normalize_guc_value b)

-- `<` on strings, the other way round: whether `a` may stand before `b`
unfoldable pub text_le : Text → Text → Bool
text_le [] b = true
text_le (x ∷ a) [] = false
text_le (x ∷ a) (y ∷ b) = ltb x y || x == y && text_le a b

unfoldable pub insert_text : Text → List Text → List Text
unfolding text_le
insert_text x [] = x ∷ []
insert_text x (y ∷ ys) = if text_le x y then x ∷ y ∷ ys else y ∷ insert_text x ys

-- `sort.Strings`
unfoldable pub sort_texts : List Text → List Text
unfolding insert_text
sort_texts [] = []
sort_texts (x ∷ xs) = insert_text x (sort_texts xs)

abbrev pub or_blank : Option Text → Text
or_blank none = []
or_blank (some t) = t

-- the row of a key with a value, by the two tests: whether it is blank, and whether it is equal
abbrev pub tested_row : Text → Text → Text → Bool → Bool → BaselineCompareRow
tested_row guc expected value true equal = record {
  guc = guc;
  baseline = expected;
  live = lit "-";
  status = drift_missing;
}
tested_row guc expected value false true = record {
  guc = guc;
  baseline = expected;
  live = value;
  status = drift_match;
}
tested_row guc expected value false false = record {
  guc = guc;
  baseline = expected;
  live = value;
  status = drift_diff;
}

-- the row of one key, by the value that the server has for it
unfoldable pub value_row : Text → Text → Option Text → BaselineCompareRow
unfolding beq trim_space guc_values_equal
value_row guc expected none = record {
  guc = guc;
  baseline = expected;
  live = lit "-";
  status = drift_missing;
}
value_row guc expected (some value) =
    tested_row guc expected value (beq (trim_space value) []) (guc_values_equal expected value)

-- one key of the loop of `CompareAgainstBaseline`
unfoldable pub compare_row : Map Text Text → Map Text Text → Text → BaselineCompareRow
unfolding lookup beq value_row
compare_row baseline live guc = value_row guc (or_blank (lookup guc baseline)) (lookup guc live)

abbrev pub keys_of : Map Text Text → List Text
keys_of m = map (λ e. e.0) m

-- `CompareAgainstBaseline`
unfoldable pub compare_against_baseline : Map Text Text → Map Text Text → List BaselineCompareRow
unfolding sort_texts compare_row
compare_against_baseline baseline live =
    map (compare_row baseline live) (sort_texts (keys_of baseline))
