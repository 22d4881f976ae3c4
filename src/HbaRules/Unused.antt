-- ===== src/HbaRules/Unused.antt =====
-- `GetUnusedLines` of hba_file_rule.go: which line numbers are reported as unused.
use ciscollector_v.Common.{
  ℕ, ◌≡◌, ◌≢◌, refl, ap, ◌∙◌, inl, inr, Bool, true, false, not, ◌&&◌, ◌||◌, Option, none, some,
  List, [], ◌∷◌, Text, map, any, All, ◌==◌, ==_iff, if◌then◌else◌, arith, Bool-cases,
}
use ciscollector_v.Common.Maps.{Map, lookup, insert, lookup-insert, nat_eq}
use ciscollector_v.Common.Sorting.{Increasing, Distinct, sort_by-Increasing, any-sort_by}
use ciscollector_v.HbaRules.Defs.{
  HbaRawLine, HbaFileRule, all_lines, or_false, used_map, unused_numbers, raw_lines,
  unused_line_nos, get_unused_lines,
}

-- Some line object has the number `n`.
abbrev pub has_number : HbaFileRule → ℕ → List ℕ → Bool
has_number r n ps = any (λ p. (r.heap p).line_number == n) ps

-- Some line object with the number `n` was used.
abbrev pub was_used : HbaFileRule → ℕ → List ℕ → Bool
was_used r n ps =
    any (λ p. (r.heap p).line_number == n && not ((r.heap p).matching_entry_count == 0)) ps

not_used_without :
    (r : HbaFileRule) (n : ℕ) (ps : List ℕ) → has_number r n ps ≡ false → was_used r n ps ≡ false
unfolding any
not_used_without r n [] h = refl
not_used_without r n (p ∷ ps) h = ground (arith, not_used_without r n ps)

lookup-used_map :
    (r : HbaFileRule) (n : ℕ) (ps : List ℕ) (seen : Map ℕ Bool)
    → lookup n (used_map r ps seen) ≡ (
        if has_number r n ps
        then some (or_false (lookup n seen) || was_used r n ps)
        else lookup n seen)
unfolding used_map any
lookup-used_map r n [] seen = refl
lookup-used_map r n (p ∷ ps) seen =
    let l = r.heap p in
    let used = or_false (lookup l.line_number seen) || not (l.matching_entry_count == 0) in
    let ih = lookup-used_map r n ps (insert l.line_number used seen) in
    let written = lookup-insert l.line_number n used seen in
    let none_left = not_used_without r n ps in
    elim (Bool-cases (l.line_number == n)) [
      | inl e ↦
          let same = ap (λ k. lookup k seen) ((==_iff l.line_number n).0 e) in
          ground (arith, ih, written, same, none_left)
      | inr e ↦ ground (arith, ih, written, none_left)
    ]

-- No key stands twice.
abbrev HasDistinctKeys : Map ℕ Bool → Type 0
HasDistinctKeys [] = Unit
HasDistinctKeys ((k, v) ∷ m) = (lookup k m ≡ none) × HasDistinctKeys m

insert-HasDistinctKeys :
    (k : ℕ) (v : Bool) (m : Map ℕ Bool) → HasDistinctKeys m → HasDistinctKeys (insert k v m)
unfolding insert lookup
insert-HasDistinctKeys k v [] h = (refl, tt)
insert-HasDistinctKeys k v ((j, w) ∷ m) h = elim (Bool-cases (j == k)) [
  | inl e ↦ rw e h
  | inr e ↦ rw e (
    ground (arith, lookup-insert k j v m, ==_iff j k, ==_iff k j),
    insert-HasDistinctKeys k v m h.1,
  )
]

used_map-HasDistinctKeys :
    (r : HbaFileRule) (ps : List ℕ) (seen : Map ℕ Bool)
    → HasDistinctKeys seen
    → HasDistinctKeys (used_map r ps seen)
unfolding used_map
used_map-HasDistinctKeys r [] seen h = h
used_map-HasDistinctKeys r (p ∷ ps) seen h =
    used_map-HasDistinctKeys r ps _ (insert-HasDistinctKeys (r.heap p).line_number _ seen h)

-- The number stands in the list.
abbrev pub holds : ℕ → List ℕ → Bool
holds n ns = any (λ k. k == n) ns

-- The key is there with the value `false`.
abbrev is_false : Option Bool → Bool
is_false none = false
is_false (some b) = not b

holds-unused_numbers :
    (n : ℕ) (m : Map ℕ Bool)
    → HasDistinctKeys m
    → holds n (unused_numbers m) ≡ is_false (lookup n m)
unfolding any unused_numbers lookup
holds-unused_numbers n [] h = refl
holds-unused_numbers n ((k, used) ∷ m) h = elim (Bool-cases (k == n)) [
  | inl e ↦
      let same = ap (λ j. lookup j m) ((==_iff k n).0 e) in
      ground (arith, holds-unused_numbers n m h.1, same)
  | inr e ↦ ground (arith, holds-unused_numbers n m h.1)
]

holds-All : (n : ℕ) (ns : List ℕ) → holds n ns ≡ false → All (λ y. n ≢ y) ns
unfolding any
holds-All n [] h = tt
holds-All n (k ∷ ns) h = (ground arith, holds-All n ns (ground arith))

unused_numbers-Distinct : (m : Map ℕ Bool) → HasDistinctKeys m → Distinct (unused_numbers m)
unfolding unused_numbers
unused_numbers-Distinct [] h = tt
unused_numbers-Distinct ((k, true) ∷ m) h = unused_numbers-Distinct m h.1
unused_numbers-Distinct ((k, false) ∷ m) h =
    let gone = holds-unused_numbers k m h.1 ∙ rw h.0 in
    (holds-All k (unused_numbers m) gone, unused_numbers-Distinct m h.1)

distinct_used : (r : HbaFileRule) → HasDistinctKeys (used_map r (all_lines r.m) [])
distinct_used r = used_map-HasDistinctKeys r (all_lines r.m) [] tt

-- The line numbers of the report.
abbrev pub report : HbaFileRule → List ℕ
report r = map (λ (l : HbaRawLine). l.line_no) (get_unused_lines r)

map-raw_lines :
    (line_map : Map ℕ Text) (ns : List ℕ)
    → map (λ (l : HbaRawLine). l.line_no) (raw_lines line_map ns) ≡ ns
unfolding raw_lines
map-raw_lines line_map [] = refl
map-raw_lines line_map (n ∷ ns) = ap (◌∷◌ n) (map-raw_lines line_map ns)

report-unused_line_nos : (r : HbaFileRule) → report r ≡ unused_line_nos r
unfolding get_unused_lines
report-unused_line_nos r = map-raw_lines r.line_map (unused_line_nos r)

-- The report names its lines in rising order, none twice.
report-Increasing : (r : HbaFileRule) → Increasing (report r)
unfolding unused_line_nos
report-Increasing r =
    rw (report-unused_line_nos r)
      (sort_by-Increasing _ (unused_numbers-Distinct _ (distinct_used r)))

pub holds-report :
    (r : HbaFileRule) (n : ℕ)
    → holds n (report r) ≡ (has_number r n (all_lines r.m) && not (was_used r n (all_lines r.m)))
unfolding unused_line_nos
holds-report r n = rw (report-unused_line_nos r) (
    any-sort_by (λ k. k == n) (unused_numbers (used_map r (all_lines r.m) []))
    ∙ holds-unused_numbers n _ (distinct_used r)
    ∙ ap is_false (lookup-used_map r n (all_lines r.m) [])
    ∙ ground arith)

-- The report has its line numbers in rising order, none twice, and a number is in it exactly if
-- some line object has it and no line object with it was used.
pub get_unused_lines-unused :
    (r : HbaFileRule)
    → Increasing (report r)
      × ((n : ℕ)
          → holds n (report r)
            ≡ (has_number r n (all_lines r.m) && not (was_used r n (all_lines r.m))))
get_unused_lines-unused r = (report-Increasing r, holds-report r)
