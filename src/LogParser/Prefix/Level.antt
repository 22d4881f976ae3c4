-- ===== src/LogParser/Prefix/Level.antt =====
-- dynamic_parser.go: the indices of the fields and of the level in the regular expression.
use mathlib.Core.List.{append_assoc}
use ciscollector_v.Common.{
  ℕ, suc, ◌+◌, ◌≡◌, ◌≢◌, refl, ap, ◌∙◌, inl, inr, Bool, true, false, none, some, List, [], ◌∷◌,
  ◌++◌, Text, lit, beq_iff, length, All, ◌==◌, ==_iff, if◌then◌else◌, arith, Bool-cases,
  Option-cases,
}
use ciscollector_v.Common.Options.{OnSome, OnSome->>=, OnSome-both}
use ciscollector_v.Common.Maps.{Map, lookup, insert, lookup-insert, text_eq}
use ciscollector_v.LogParser.Prefix.{
  regex_map, Build, add_literal, add_known, add_placeholder, placeholder, scan_pattern, blank_build,
  close_optional, before_level, finished, generate_regex_string, reg_exp_level, reg_exp_content,
}
use ciscollector_v.LogParser.Prefix.Groups.{
  Mode, count_groups, count_then, GroupAt, IsIndex, IsIndex-append, IsOpen, built_text, quote,
  AreEscapes, AreEscapes-tail, is_meta, add_quoted, scan-quoted, scan-trailing, scan-placeholder,
  scan_pattern-IsOpen,
}

-- The placeholder `%d`, if the program knows it and makes a group of it.
abbrev pub known_at : ℕ → List Text
known_at d =
    if d == b'q'
    then []
    else elim (lookup (placeholder d) regex_map) [ none ↦ [] | some e ↦ placeholder d ∷ [] ]

-- The known placeholders of a prefix, from left to right.
unfoldable pub known_placeholders : Text → List Text
known_placeholders [] = []
known_placeholders (c ∷ []) = []
known_placeholders (c ∷ d ∷ s) =
    let jumped = known_placeholders s in
    let stepped = known_placeholders (d ∷ s) in if c == b'%' then known_at d ++ jumped else stepped

abbrev pub AreDistinct : List Text → Type 0
AreDistinct [] = Unit
AreDistinct (w ∷ ws) = All (λ v. w ≢ v) ws × AreDistinct ws

-- No placeholder of the list has an index yet, and the next index counts the entries.
abbrev IsFresh : List Text → Build → Type 0
IsFresh ws b = All (λ w. lookup w b.index_map ≡ none) ws × (b.crt_ind ≡ length b.index_map + 2)

length-insert :
    (k : Text) (i : ℕ) (m : Map Text ℕ) → lookup k m ≡ none → length (insert k i m) ≡ suc (length m)
unfolding insert lookup
length-insert k i [] h = refl
length-insert k i ((j, v) ∷ m) h = ground (arith, length-insert k i m)

lookups-insert :
    (k : Text) (i : ℕ) (m : Map Text ℕ) (ws : List Text)
    → All (λ v. k ≢ v) ws
    → All (λ w. lookup w m ≡ none) ws
    → All (λ w. lookup w (insert k i m) ≡ none) ws
lookups-insert k i m [] ne h = tt
lookups-insert k i m (w ∷ ws) ne h = (
  ground (arith, lookup-insert k w i m, beq_iff k w, ne.0, h.0),
  lookups-insert k i m ws ne.1 h.1,
)

add_quoted-IsFresh :
    (c : ℕ) (ws : List Text) (b : Build) → IsFresh ws b → IsFresh ws (add_quoted c b)
unfolding add_literal
add_quoted-IsFresh c ws b h = elim (Bool-cases (is_meta c)) [ inl m ↦ rw m h | inr m ↦ rw m h ]

add_placeholder-IsFresh :
    (d : ℕ) (rest : List Text) (b : Build)
    → AreDistinct (known_at d ++ rest)
    → IsFresh (known_at d ++ rest) b
    → AreDistinct rest × IsFresh rest (add_placeholder d b)
unfolding add_placeholder add_known
add_placeholder-IsFresh d rest b distinct fresh = elim (Bool-cases (d == b'q')) [
  | inl q ↦ rw q (rw q at distinct, rw q at fresh)
  | inr q ↦ elim (Option-cases (lookup (placeholder d) regex_map)) [
    | inl l ↦ rw (q, l) (rw (q, l) at distinct, rw (q, l) at fresh)
    | inr (e, l) ↦
        let apart : AreDistinct (placeholder d ∷ rest) = rw (q, l) at distinct in
        let free : IsFresh (placeholder d ∷ rest) b = rw (q, l) at fresh in
        let longer = length-insert (placeholder d) b.crt_ind b.index_map free.0.0 in
        let others = lookups-insert (placeholder d) b.crt_ind b.index_map rest apart.0 free.0.1 in
        rw (q, l) (apart.1, (others, omega (arith, longer, free.1)))
  ]
]

scan_pattern-IsFresh :
    (s : Text) (b : Build)
    → AreEscapes s
    → AreDistinct (known_placeholders s)
    → IsFresh (known_placeholders s) b
    → OnSome (λ b'. b'.crt_ind ≡ length b'.index_map + 2) (scan_pattern (quote s) b)
unfolding scan_pattern known_placeholders
scan_pattern-IsFresh [] b a d h = h.1
scan_pattern-IsFresh (c ∷ []) b a d h = elim (Bool-cases (c == b'%')) [
  | inl e ↦ rw ((==_iff c b'%').0 e, scan-trailing b) tt
  | inr e ↦ rw (scan-quoted c [] b (λ q. ground arith)) (add_quoted-IsFresh c [] b h).1
]
scan_pattern-IsFresh (c ∷ x ∷ s) b a d h = elim (Bool-cases (c == b'%')) [
  | inl e ↦
      let same = (==_iff c b'%').0 e in
      let (apart, free) =
        add_placeholder-IsFresh x (known_placeholders s) b (rw e at d) (rw e at h) in
      rw (same, scan-placeholder x s b (a.0 same))
        (scan_pattern-IsFresh s (add_placeholder x b) (AreEscapes-tail x s a.1) apart free)
  | inr e ↦ rw (scan-quoted c (x ∷ s) b (λ q. ground arith)) (
      scan_pattern-IsFresh (x ∷ s) (add_quoted c b) a.1 (rw e at d)
        (add_quoted-IsFresh c (known_placeholders (x ∷ s)) b (rw e at h)))
]

blank_build-IsOpen : IsOpen Mode.plain blank_build
unfolding count_groups
blank_build-IsOpen = (1, refl, refl, tt)

none_yet : (ws : List Text) → All (λ w. lookup w blank_build.index_map ≡ none) ws
unfolding lookup
none_yet [] = tt
none_yet (w ∷ ws) = (refl, none_yet ws)

-- The groups of the finished expression before the one of the level.
close_quiet :
    (q : Bool) (n : ℕ)
    → count_groups (close_optional q ++ lit "(\\s*)") Mode.plain n
      ≡ record { mode = Mode.plain; groups = suc n }
unfolding count_groups
close_quiet true n = refl
close_quiet false n = refl

finished-IsIndex : (b : Build) → IsOpen Mode.plain b → All (IsIndex (finished b).0) (finished b).1
finished-IsIndex b (n, o, k, h) =
    let rest = close_optional b.found_q ++ lit "(\\s*)" in
    let end = reg_exp_level ++ reg_exp_content in
    let same : (finished b).0 ≡ built_text b ++ (rest ++ end) =
      ap (λ t. lit "(\\s*)" ++ t) (append_assoc b.regexp_string rest end) in
    let all = IsIndex-append (built_text b) (rest ++ end) b.index_map h in rw same all

finished-level :
    (b : Build)
    → IsOpen Mode.plain b × (b.crt_ind ≡ length b.index_map + 2)
    → GroupAt (finished b).0 (length b.index_map + 3) reg_exp_level
finished-level b ((n, o, k, h), c) =
    let counted =
      count_then (built_text b) (close_optional b.found_q ++ lit "(\\s*)") Mode.plain n o
      ∙ close_quiet b.found_q n in
    (before_level b, reg_exp_content, refl, suc n, counted, omega (arith, k, c))

module _ (quote_meta : Text → Text) (quotes : (s : Text) → quote_meta s ≡ quote s) where
  -- For a prefix in which no `%` stands before a character that is escaped, every index of the map
  -- is the number of the capturing group with the expression of its placeholder.
  pub generate_regex_string-IsIndex :
      (s : Text)
      → AreEscapes s
      → OnSome (λ (regex, m). All (IsIndex regex) m) (generate_regex_string quote_meta s)
  unfolding generate_regex_string
  generate_regex_string-IsIndex s a = rw (quotes s) (
      OnSome->>= (IsOpen Mode.plain) (λ (regex, m). All (IsIndex regex) m)
        (scan_pattern (quote s) blank_build) _
        (scan_pattern-IsOpen s blank_build a blank_build-IsOpen) finished-IsIndex)

  -- For a prefix in which no `%` stands before a character that is escaped, and no known placeholder
  -- stands twice, the group of the level is the one that the parser takes, three after the number of
  -- the map's entries.
  pub generate_regex_string-level :
      (s : Text)
      → AreEscapes s
      → AreDistinct (known_placeholders s)
      → OnSome
          (λ (regex, m). GroupAt regex (length m + 3) reg_exp_level)
          (generate_regex_string quote_meta s)
  unfolding generate_regex_string
  generate_regex_string-level s a d = rw (quotes s) (
      OnSome->>= _ (λ (regex, m). GroupAt regex (length m + 3) reg_exp_level)
        (scan_pattern (quote s) blank_build) _
        (OnSome-both (IsOpen Mode.plain) _ (scan_pattern (quote s) blank_build)
          (scan_pattern-IsOpen s blank_build a blank_build-IsOpen)
          (scan_pattern-IsFresh s blank_build a d (none_yet (known_placeholders s), refl)))
        finished-level)
