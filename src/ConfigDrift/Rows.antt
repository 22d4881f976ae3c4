-- ===== src/ConfigDrift/Rows.antt =====
-- compareconfig.go: the rows that `CompareAgainstBaseline` reports.
use ciscollector_v.Common.{
  ◌≡◌, refl, ◌∙◌, Bool, true, false, not, ◌&&◌, Option, none, some, List, [], ◌∷◌, Text, beq,
  beq_refl, trim_space, equal_fold, map, count, arith, fold_case,
}
use ciscollector_v.Common.Maps.{Map, lookup, text_eq}
use ciscollector_v.ConfigDrift.Baseline.{
  DriftStatus, drift_match, drift_diff, drift_missing, guc_values_equal, sort_texts, or_blank,
  tested_row, value_row, normalize_guc_value, compare_row, keys_of, compare_against_baseline,
}
use ciscollector_v.ConfigDrift.Values.{IsOrdered, sort_texts-IsOrdered, count-sort_texts}

abbrev pub is_match : DriftStatus → Bool
is_match drift_match = true
is_match drift_diff = false
is_match drift_missing = false

-- The value is there, is not blank, and is that of the baseline.
unfoldable pub is_value_of : Text → Option Text → Bool
unfolding beq trim_space guc_values_equal
is_value_of expected none = false
is_value_of expected (some value) =
    not (beq (trim_space value) []) && guc_values_equal expected value

-- The server has the value of the baseline for the setting.
unfoldable pub agrees : Map Text Text → Map Text Text → Text → Bool
unfolding lookup beq is_value_of
agrees baseline live guc = is_value_of (or_blank (lookup guc baseline)) (lookup guc live)

tested_row-guc :
    (guc expected value : Text) (blank equal : Bool)
    → (tested_row guc expected value blank equal).guc ≡ guc
tested_row-guc guc expected value true equal = refl
tested_row-guc guc expected value false true = refl
tested_row-guc guc expected value false false = refl

tested_row-is_match :
    (guc expected value : Text) (blank equal : Bool)
    → is_match (tested_row guc expected value blank equal).status ≡ (not blank && equal)
tested_row-is_match guc expected value true equal = refl
tested_row-is_match guc expected value false true = refl
tested_row-is_match guc expected value false false = refl

value_row-guc : (guc expected : Text) (o : Option Text) → (value_row guc expected o).guc ≡ guc
unfolding value_row
value_row-guc guc expected none = refl
value_row-guc guc expected (some v) =
    tested_row-guc guc expected v (beq (trim_space v) []) (guc_values_equal expected v)

value_row-is_value_of :
    (guc expected : Text) (o : Option Text)
    → is_match (value_row guc expected o).status ≡ is_value_of expected o
unfolding value_row is_value_of
value_row-is_value_of guc expected none = refl
value_row-is_value_of guc expected (some v) =
    tested_row-is_match guc expected v (beq (trim_space v) []) (guc_values_equal expected v)

module _ (baseline live : Map Text Text) where
  compare_row-guc : (guc : Text) → (compare_row baseline live guc).guc ≡ guc
  unfolding compare_row
  compare_row-guc guc = value_row-guc guc (or_blank (lookup guc baseline)) (lookup guc live)

  compare_row-agrees :
      (guc : Text) → is_match (compare_row baseline live guc).status ≡ agrees baseline live guc
  unfolding compare_row agrees
  compare_row-agrees guc =
      value_row-is_value_of guc (or_blank (lookup guc baseline)) (lookup guc live)

  map-compare_row :
      (keys : List Text) → map (λ r. r.guc) (map (compare_row baseline live) keys) ≡ keys
  map-compare_row [] = refl
  map-compare_row (k ∷ keys) = cc (compare_row-guc k, map-compare_row keys)

  count-compare_row :
      (keys : List Text)
      → count (λ r. not (is_match r.status)) (map (compare_row baseline live) keys)
        ≡ count (λ k. not (agrees baseline live k)) keys
  unfolding count
  count-compare_row [] = refl
  count-compare_row (k ∷ keys) = rw (compare_row-agrees k, count-compare_row keys) refl

  -- The rows stand in the order of their settings, there are as many for a setting as the baseline
  -- has entries for it, and those that are not a match are as many as the settings of the
  -- baseline for which the server has no value, a blank one, or one that differs from that of the
  -- baseline after normalisation.
  pub compare_against_baseline-rows :
      IsOrdered (map (λ r. r.guc) (compare_against_baseline baseline live))
      × ((p : Text → Bool)
          → count p (map (λ r. r.guc) (compare_against_baseline baseline live))
            ≡ count p (keys_of baseline))
      × (count (λ r. not (is_match r.status)) (compare_against_baseline baseline live)
          ≡ count (λ k. not (agrees baseline live k)) (keys_of baseline))
  unfolding compare_against_baseline
  compare_against_baseline-rows =
      let sorted = sort_texts (keys_of baseline) in
      (
        rw (map-compare_row sorted) (sort_texts-IsOrdered (keys_of baseline)),
        λ p. rw (map-compare_row sorted) (count-sort_texts p (keys_of baseline)),
        count-compare_row sorted ∙ count-sort_texts _ (keys_of baseline),
      )

is_value_of_self :
    (o : Option Text) → is_value_of (or_blank o) o ≡ not (beq (trim_space (or_blank o)) [])
unfolding is_value_of guc_values_equal equal_fold trim_space beq
is_value_of_self none = refl
is_value_of_self (some v) = ground (arith, beq_refl (map fold_case (normalize_guc_value v)))

agrees_self :
    (m : Map Text Text) (k : Text)
    → agrees m m k ≡ not (beq (trim_space (or_blank (lookup k m))) [])
unfolding agrees
agrees_self m k = is_value_of_self (lookup k m)

count-agrees_self :
    (m : Map Text Text) (keys : List Text)
    → count (λ k. not (agrees m m k)) keys
      ≡ count (λ k. beq (trim_space (or_blank (lookup k m))) []) keys
unfolding count
count-agrees_self m [] = refl
count-agrees_self m (k ∷ keys) = ground (arith, agrees_self m k, count-agrees_self m keys)

-- In the comparison of a configuration with itself as the baseline, the rows that are not a match
-- are as many as the settings with a blank value.
pub compare_against_baseline_self :
    (m : Map Text Text)
    → count (λ r. not (is_match r.status)) (compare_against_baseline m m)
      ≡ count (λ k. beq (trim_space (or_blank (lookup k m))) []) (keys_of m)
compare_against_baseline_self m =
    (compare_against_baseline-rows m m).2 ∙ count-agrees_self m (keys_of m)
