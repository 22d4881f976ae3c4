-- ===== src/LogParser/BaseParser.antt =====
-- logline_prefix_parser.go: `baseParser.Parse`, which swaps its two time formats when the first
-- one does not fit.
use ciscollector_v.Common.{
  ℕ, ◌≡◌, refl, ap, ◌∙◌, ◌⊎◌, inl, inr, Option, none, some, List, [], ◌∷◌, Text, beq, map, All,
  if◌then◌else◌, arith, Option-cases,
}
use mathlib.Core.Path.{ap₂}
use ciscollector_v.Utils.Containers.{get}
use ciscollector_v.LogParser.ParsedData.{ParsingIndex, ParsedData}

-- `baseParser`: the regular expression as its `FindStringSubmatch`
pub record BaseParser : Type 0 where
  pub regex : Text → Option (List Text)
  pub time_format : Text
  pub time_format_alt : Text
  pub index : ParsingIndex
  pub level_index : ℕ

module _ {Time : Type 0} (parse_time : Text → Text → Option Time) where
  abbrev pub parsed : BaseParser → List Text → Option Time → ParsedData Time
  parsed b parts time = record {
    level_index = b.level_index;
    index = b.index;
    data_parts = parts;
    parsed_time = time;
  }

  abbrev pub swap_formats : BaseParser → BaseParser
  swap_formats b = record b { time_format = b.time_format_alt; time_format_alt = b.time_format }

  -- the two tries at the time
  unfoldable pub parse_time_part :
      BaseParser → List Text → Text → BaseParser × Option (ParsedData Time)
  parse_time_part b parts time_part = elim (parse_time b.time_format time_part) [
    | some t ↦ (b, some (parsed b parts (some t)))
    | none ↦ (
      swap_formats b,
      elim (parse_time b.time_format_alt time_part) [
        | none ↦ none
        | some t ↦ some (parsed b parts (some t))
      ],
    )
  ]

  unfoldable pub parse_parts : BaseParser → List Text → BaseParser × Option (ParsedData Time)
  unfolding parse_time_part get beq
  parse_parts b parts = elim b.index.time_index [
    | none ↦ (b, some (parsed b parts none))
    | some i ↦
        if beq (get parts i) []
        then (b, some (parsed b parts none))
        else parse_time_part b parts (get parts i)
  ]

  -- `Parse`
  unfoldable pub parse : BaseParser → Text → BaseParser × Option (ParsedData Time)
  unfolding parse_parts
  parse b line = elim (b.regex line) [ none ↦ (b, none) | some parts ↦ parse_parts b parts ]

  -- The results for the lines of a log, the parser carried on from line to line.
  unfoldable pub parse_all : BaseParser → List Text → List (Option (ParsedData Time))
  parse_all b [] = []
  parse_all b (line ∷ lines) = let (b', result) = parse b line in result ∷ parse_all b' lines

  -- The part of a line that the parser tries as a time is not read as two different times by its
  -- two formats.
  abbrev pub IsUnambiguous : BaseParser → Text → Type 0
  IsUnambiguous b line =
      (parts : List Text) (i : ℕ) (x y : Time)
      → b.regex line ≡ some parts
      → b.index.time_index ≡ some i
      → parse_time b.time_format (get parts i) ≡ some x
      → parse_time b.time_format_alt (get parts i) ≡ some y
      → x ≡ y

  module _ (b : BaseParser) where
    parse_time_part-swap :
        (parts : List Text) (t : Text)
        → ((x y : Time)
            → parse_time b.time_format t ≡ some x
            → parse_time b.time_format_alt t ≡ some y
            → x ≡ y)
        → (parse_time_part (swap_formats b) parts t).1 ≡ (parse_time_part b parts t).1
    unfolding parse_time_part
    parse_time_part-swap parts t same = elim (Option-cases (parse_time b.time_format t)) [
      | inl p ↦ elim (Option-cases (parse_time b.time_format_alt t)) [
        | inl q ↦ ground arith
        | inr (y, q) ↦ ground arith
      ]
      | inr (x, p) ↦ elim (Option-cases (parse_time b.time_format_alt t)) [
        | inl q ↦ ground arith
        | inr (y, q) ↦ let agree = same x y p q in ground (arith, agree)
      ]
    ]

    parse_parts-swap :
        (line : Text) (parts : List Text)
        → IsUnambiguous b line
        → b.regex line ≡ some parts
        → (parse_parts (swap_formats b) parts).1 ≡ (parse_parts b parts).1
    unfolding parse_parts
    parse_parts-swap line parts h e = elim (Option-cases b.index.time_index) [
      | inl p ↦ ground arith
      | inr (i, p) ↦
          let same = parse_time_part-swap parts (get parts i) (λ x y. h parts i x y e p) in
          ground (arith, same)
    ]

    parse-swap :
        (line : Text) → IsUnambiguous b line → (parse (swap_formats b) line).1 ≡ (parse b line).1
    unfolding parse
    parse-swap line h = elim (Option-cases (b.regex line)) [
      | inl p ↦ ground arith
      | inr (parts, p) ↦ ground (arith, parse_parts-swap line parts h p)
    ]

  parse-formats :
      (b : BaseParser) (line : Text) → ((parse b line).0 ≡ b) ⊎ ((parse b line).0 ≡ swap_formats b)
  unfolding parse parse_parts parse_time_part
  parse-formats b line = ground arith

  parse_all-from :
      (b c : BaseParser) (lines : List Text)
      → All (IsUnambiguous b) lines
      → (c ≡ b) ⊎ (c ≡ swap_formats b)
      → parse_all c lines ≡ map (λ line. (parse b line).1) lines
  unfolding parse_all
  parse_all-from b c [] h s = refl
  parse_all-from b c (line ∷ lines) h s =
      ap₂ ◌∷◌ (first s)
        (parse_all-from b (parse c line).0 lines h.1 (next s (parse-formats c line)))
    where
      first : (c ≡ b) ⊎ (c ≡ swap_formats b) → (parse c line).1 ≡ (parse b line).1
      first (inl e) = rw e
      first (inr e) = rw e (parse-swap b line h.0)

      next :
          (c ≡ b) ⊎ (c ≡ swap_formats b)
          → ((parse c line).0 ≡ c) ⊎ ((parse c line).0 ≡ swap_formats c)
          → ((parse c line).0 ≡ b) ⊎ ((parse c line).0 ≡ swap_formats b)
      next (inl e) (inl f) = inl (f ∙ e)
      next (inl e) (inr f) = inr (f ∙ ap swap_formats e)
      next (inr e) (inl f) = inr (f ∙ e)
      next (inr e) (inr f) = inl (f ∙ ap swap_formats e)

  -- If the two formats read no line of a log as two different times, then the result for each line
  -- is that of a new parser: swapping the formats carries nothing over from one line to the next.
  pub parse_all-fresh :
      (b : BaseParser) (lines : List Text)
      → All (IsUnambiguous b) lines
      → parse_all b lines ≡ map (λ line. (parse b line).1) lines
  parse_all-fresh b lines h = parse_all-from b b lines h (inl refl)
