-- ===== src/LogParser/Prefix/Groups.antt =====
-- dynamic_parser.go: the capturing groups of a regular expression, numbered by their opening
-- parentheses, and where the loop over a prefix puts them.
use mathlib.Core.List.{append_assoc, append-nil}
use ciscollector_v.Common.{
  ℕ, suc, ◌+◌, ◌≡◌, ◌≢◌, refl, sym, ap, ◌∙◌, inl, inr, Bool, true, false, ◌||◌, none, some, [], ◌∷◌,
  ◌++◌, Text, lit, beq, beq_iff, All, ◌==◌, ==_iff, if◌then◌else◌, arith, Bool-cases, Option-cases,
}
use ciscollector_v.Common.Options.{OnSome}
use ciscollector_v.Common.Maps.{Map, lookup, insert, text_eq}
use ciscollector_v.LogParser.Prefix.{
  regex_map, Build, add_literal, add_optional, add_known, add_placeholder, placeholder,
  scan_pattern,
}

-- What a parenthesis that was just read waits on.
pub data Mode : Type 0 where
  plain : Mode
  escaped : Mode
  opened : Mode

pub record Count : Type 0 where
  pub mode : Mode
  pub groups : ℕ

abbrev after_plain : ℕ → ℕ → Count
after_plain c n =
    if c == b'\\'
    then record { mode = Mode.escaped; groups = n }
    else if c == b'('
    then record { mode = Mode.opened; groups = n }
    else record { mode = Mode.plain; groups = n }

-- a parenthesis before a question mark opens no capturing group
abbrev read_one : ℕ → Mode → ℕ → Count
read_one c Mode.plain n = after_plain c n
read_one c Mode.escaped n = record { mode = Mode.plain; groups = n }
read_one c Mode.opened n =
    if c == b'?' then record { mode = Mode.plain; groups = n } else after_plain c (suc n)

unfoldable pub count_groups : Text → Mode → ℕ → Count
count_groups [] m n = record { mode = m; groups = n }
count_groups (c ∷ cs) m n = let r = read_one c m n in count_groups cs r.mode r.groups

-- Between two groups, after `n` of them.
abbrev pub Opens : Text → ℕ → Type 0
Opens t n = count_groups t Mode.plain 0 ≡ record { mode = Mode.plain; groups = n }

-- The expression stands in the regular expression as its group with this number.
abbrev pub GroupAt : Text → ℕ → Text → Type 0
GroupAt regex i expression =
    (before : Text) × (after : Text) × (regex ≡ before ++ (expression ++ after))
    × (n : ℕ) × Opens before n
    × (suc n ≡ i)

pub count_groups-append :
    (s t : Text) (m : Mode) (n : ℕ)
    → count_groups (s ++ t) m n
      ≡ count_groups t (count_groups s m n).mode (count_groups s m n).groups
unfolding count_groups
count_groups-append [] t m n = refl
count_groups-append (c ∷ s) t m n =
    let r = read_one c m n in count_groups-append s t r.mode r.groups

pub count_then :
    (s t : Text) (m : Mode) (n : ℕ)
    → count_groups s Mode.plain 0 ≡ record { mode = m; groups = n }
    → count_groups (s ++ t) Mode.plain 0 ≡ count_groups t m n
count_then s t m n h = rw (count_groups-append s t Mode.plain 0, h) refl

GroupAt-append :
    (regex rest : Text) (i : ℕ) (e : Text) → GroupAt regex i e → GroupAt (regex ++ rest) i e
GroupAt-append regex rest i e (before, after, same, n, o, k) =
    (before, after ++ rest, rw (same, append_assoc before, append_assoc e) refl, n, o, k)

-- The expression so far, with the group in front of it.
abbrev pub built_text : Build → Text
built_text b = lit "(\\s*)" ++ b.regexp_string

-- The entry of a placeholder is the number of the group with the placeholder's expression.
abbrev pub IsIndex : Text → Text × ℕ → Type 0
IsIndex regex (k, i) = (e : Text) × (lookup k regex_map ≡ some e) × GroupAt regex i e

abbrev pub IsOpen : Mode → Build → Type 0
IsOpen mode b =
    (n : ℕ) × (count_groups (built_text b) Mode.plain 0 ≡ record { mode = mode; groups = n })
    × (n + 1 ≡ b.crt_ind)
    × All (IsIndex (built_text b)) b.index_map

pub IsIndex-append :
    (regex rest : Text) (m : Map Text ℕ) → All (IsIndex regex) m → All (IsIndex (regex ++ rest)) m
IsIndex-append regex rest [] h = tt
IsIndex-append regex rest ((k, i) ∷ m) ((e, l, g), hs) =
    ((e, l, GroupAt-append regex rest i e g), IsIndex-append regex rest m hs)

insert-IsIndex :
    (regex k : Text) (i : ℕ) (m : Map Text ℕ)
    → IsIndex regex (k, i)
    → All (IsIndex regex) m
    → All (IsIndex regex) (insert k i m)
unfolding insert
insert-IsIndex regex k i [] h hs = (h, tt)
insert-IsIndex regex k i ((j, v) ∷ m) h hs = elim (Bool-cases (beq j k)) [
  | inl e ↦ let same : j ≡ k = (beq_iff j k).0 e in rw (e, same, insert) (h, hs.1)
  | inr e ↦ rw (e, insert) (hs.0, insert-IsIndex regex k i m h hs.1)
]

-- Every expression of the map is one group.
abbrev IsOneGroup : Text × Text → Type 0
IsOneGroup (k, e) =
    (n : ℕ) → count_groups e Mode.plain n ≡ record { mode = Mode.plain; groups = suc n }

regex_map-IsOneGroup : All IsOneGroup regex_map
unfolding count_groups
regex_map-IsOneGroup = (
  (λ n. refl),
  (
    (λ n. refl),
    (
      (λ n. refl),
      (
        (λ n. refl),
        (
          (λ n. refl),
          (
            (λ n. refl),
            (
              (λ n. refl),
              (
                (λ n. refl),
                (
                  (λ n. refl),
                  (
                    (λ n. refl),
                    ((λ n. refl), ((λ n. refl), ((λ n. refl), ((λ n. refl), ((λ n. refl), tt))))),
                  ),
                ),
              ),
            ),
          ),
        ),
      ),
    ),
  ),
)

lookup-IsOneGroup :
    (m : Map Text Text) (k e : Text) → All IsOneGroup m → lookup k m ≡ some e → IsOneGroup (k, e)
unfolding lookup
lookup-IsOneGroup [] k e h l = cc
lookup-IsOneGroup ((j, v) ∷ m) k e h l = elim (Bool-cases (beq j k)) [
  | inl t ↦ let same : v ≡ e = ground arith in rw (sym same) h.0
  | inr t ↦ lookup-IsOneGroup m k e h.1 (ground arith)
]

-- Text that leads from one mode to another, and opens no capturing group.
add_text-IsOpen :
    (b : Build) (q : Bool) (m m' : Mode) (x : Text)
    → ((n : ℕ) → count_groups x m n ≡ record { mode = m'; groups = n })
    → IsOpen m b
    → IsOpen m' (record b { regexp_string = b.regexp_string ++ x; found_q = q })
add_text-IsOpen b q m m' x quiet (n, o, k, h) = (
  n,
  count_then (built_text b) x m n o ∙ quiet n,
  k,
  IsIndex-append (built_text b) x b.index_map h,
)

add_known-IsOpen :
    (k e : Text) (b : Build)
    → lookup k regex_map ≡ some e
    → IsOpen Mode.plain b
    → IsOpen Mode.plain (add_known k (some e) b)
unfolding add_known
add_known-IsOpen k e b l (n, o, same, h) =
    let one = lookup-IsOneGroup regex_map k e regex_map-IsOneGroup l in
    let group : GroupAt (built_text b ++ e) b.crt_ind e =
      (built_text b, [], ap (λ r. built_text b ++ r) (sym (append-nil e)), n, o, omega arith) in
    let all = IsIndex-append (built_text b) e b.index_map h in
    (
      suc n,
      count_then (built_text b) e Mode.plain n o ∙ one n,
      omega arith,
      insert-IsIndex (built_text b ++ e) k b.crt_ind b.index_map (e, l, group) all,
    )

-- The characters that `regexp.QuoteMeta` escapes.
unfoldable pub is_meta : ℕ → Bool
is_meta c =
    c == b'\\'
    || c == b'.'
    || c == b'+'
    || c == b'*'
    || c == b'?'
    || c == b'('
    || c == b')'
    || c == b'|'
    || c == b'['
    || c == b']'
    || c == b'{'
    || c == b'}'
    || c == b'^'
    || c == b'$'

-- The documented result of `regexp.QuoteMeta`.
abbrev pub quote : Text → Text
quote [] = []
quote (c ∷ cs) = if is_meta c then b'\\' ∷ c ∷ quote cs else c ∷ quote cs

-- No `%` stands before a character that is escaped.
abbrev pub AreEscapes : Text → Type 0
AreEscapes [] = Unit
AreEscapes (c ∷ []) = Unit
AreEscapes (c ∷ d ∷ cs) = (c ≡ b'%' → is_meta d ≡ false) × AreEscapes (d ∷ cs)

scan_literal :
    (c : ℕ) (cs : Text) (b : Build)
    → c ≢ b'%'
    → scan_pattern (c ∷ cs) b ≡ scan_pattern cs (add_literal c b)
unfolding scan_pattern
scan_literal c [] b h = ground arith
scan_literal c (d ∷ cs) b h = ground arith

count_plain :
    (c n : ℕ)
    → is_meta c ≡ false
    → count_groups (c ∷ []) Mode.plain n ≡ record { mode = Mode.plain; groups = n }
unfolding count_groups is_meta
count_plain c n h = ground arith

add_plain-IsOpen :
    (c : ℕ) (b : Build)
    → is_meta c ≡ false
    → IsOpen Mode.plain b
    → IsOpen Mode.plain (add_literal c b)
unfolding add_literal
add_plain-IsOpen c b h =
    add_text-IsOpen b b.found_q Mode.plain Mode.plain (c ∷ []) (λ n. count_plain c n h)

add_escaped-IsOpen :
    (c : ℕ) (b : Build)
    → IsOpen Mode.plain b
    → IsOpen Mode.plain (add_literal c (add_literal b'\\' b))
unfolding add_literal count_groups
add_escaped-IsOpen c b h =
    add_text-IsOpen (add_literal b'\\' b) b.found_q Mode.escaped Mode.plain (c ∷ []) (λ n. refl)
      (add_text-IsOpen b b.found_q Mode.plain Mode.escaped (b'\\' ∷ []) (λ n. refl) h)

add_placeholder-IsOpen :
    (d : ℕ) (b : Build) → IsOpen Mode.plain b → IsOpen Mode.plain (add_placeholder d b)
unfolding add_placeholder add_optional add_known count_groups
add_placeholder-IsOpen d b h = elim (Bool-cases (d == b'q')) [
  | inl q ↦ rw q (add_text-IsOpen b true Mode.plain Mode.plain (lit "(?:") (λ n. refl) h)
  | inr q ↦ elim (Option-cases (lookup (placeholder d) regex_map)) [
    | inl l ↦ rw (q, l) h
    | inr (e, l) ↦ rw (q, l) (add_known-IsOpen (placeholder d) e b l h)
  ]
]

-- One character of the prefix, with its escape.
abbrev pub add_quoted : ℕ → Build → Build
add_quoted c b = if is_meta c then add_literal c (add_literal b'\\' b) else add_literal c b

add_quoted-IsOpen : (c : ℕ) (b : Build) → IsOpen Mode.plain b → IsOpen Mode.plain (add_quoted c b)
add_quoted-IsOpen c b h = elim (Bool-cases (is_meta c)) [
  | inl m ↦ rw m (add_escaped-IsOpen c b h)
  | inr m ↦ rw m (add_plain-IsOpen c b m h)
]

is_meta-ne : (c : ℕ) → is_meta c ≡ true → c ≢ b'%'
unfolding is_meta
is_meta-ne c h e = ground arith

pub scan-quoted :
    (c : ℕ) (s : Text) (b : Build)
    → c ≢ b'%'
    → scan_pattern (quote (c ∷ s)) b ≡ scan_pattern (quote s) (add_quoted c b)
scan-quoted c s b h = elim (Bool-cases (is_meta c)) [
  | inl m ↦ rw m (
      scan_literal b'\\' (c ∷ quote s) b (λ e. omega arith)
      ∙ scan_literal c (quote s) (add_literal b'\\' b) h)
  | inr m ↦ rw m (scan_literal c (quote s) b h)
]

pub scan-trailing : (b : Build) → scan_pattern (quote (b'%' ∷ [])) b ≡ none
unfolding scan_pattern is_meta
scan-trailing b = refl

pub scan-placeholder :
    (d : ℕ) (s : Text) (b : Build)
    → is_meta d ≡ false
    → scan_pattern (quote (b'%' ∷ d ∷ s)) b ≡ scan_pattern (quote s) (add_placeholder d b)
unfolding scan_pattern is_meta
scan-placeholder d s b h = rw h refl

pub AreEscapes-tail : (c : ℕ) (s : Text) → AreEscapes (c ∷ s) → AreEscapes s
AreEscapes-tail c [] h = tt
AreEscapes-tail c (d ∷ s) h = h.1

pub scan_pattern-IsOpen :
    (s : Text) (b : Build)
    → AreEscapes s
    → IsOpen Mode.plain b
    → OnSome (IsOpen Mode.plain) (scan_pattern (quote s) b)
unfolding scan_pattern
scan_pattern-IsOpen [] b a h = h
scan_pattern-IsOpen (c ∷ []) b a h = elim (Bool-cases (c == b'%')) [
  | inl e ↦ rw ((==_iff c b'%').0 e, scan-trailing b) tt
  | inr e ↦ rw (scan-quoted c [] b (λ q. ground arith)) (add_quoted-IsOpen c b h)
]
scan_pattern-IsOpen (c ∷ d ∷ s) b a h = elim (Bool-cases (c == b'%')) [
  | inl e ↦
      let same = (==_iff c b'%').0 e in
      rw (same, scan-placeholder d s b (a.0 same))
        (scan_pattern-IsOpen s (add_placeholder d b) (AreEscapes-tail d s a.1)
          (add_placeholder-IsOpen d b h))
  | inr e ↦
      rw (scan-quoted c (d ∷ s) b (λ q. ground arith))
        (scan_pattern-IsOpen (d ∷ s) (add_quoted c b) a.1 (add_quoted-IsOpen c b h))
]
