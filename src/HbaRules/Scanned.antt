-- ===== src/HbaRules/Scanned.antt =====
-- hba_helpers.go: which lines of the file become rules, and with which numbers.
use ciscollector_v.Common.{
  ℕ, zero, suc, ◌+◌, ◌<◌, ◌≡◌, ◌↔◌, refl, inl, inr, false, some, List, [], ◌∷◌, Text, trim_space,
  map, get_elem?, All, In, here, there, In-cons, arith, Bool-cases, Option-cases,
}
use ciscollector_v.Common.Options.{>>=-eq-some}
use ciscollector_v.Common.Sorting.{Increasing, All-mono}
use ciscollector_v.HbaRules.Parse.{HbaFileRules}
use ciscollector_v.HbaRules.Files.{
  Sources, rule_of_match, parse_hba_line, is_ignored, rule_at, scan_lines, scan_hba_file,
  update_string_with_filename_or_rolename,
}
use ciscollector_v.Utils.Containers.{get}

module _ (io : Sources) (path : Text) where
  -- The line with this index, counted from 0, holds the rule.
  abbrev pub Holds : List Text → ℕ → HbaFileRules → Type 0
  Holds lines i r =
      (line : Text) × (get_elem? lines i ≡ some line)
      × (parse_hba_line io (i + 1) (trim_space line) path ≡ some r)
      × (is_ignored io (trim_space line) ≡ false)

  rule_of_match-number :
      (n : ℕ) (line : Text) (parts : List Text) (r : HbaFileRules)
      → rule_of_match io n line path parts ≡ some r
      → (r.line_number ≡ n) × (r.raw ≡ line)
  unfolding rule_of_match
  rule_of_match-number n line parts r e =
      let (user, e1, e2) =
        >>=-eq-some (update_string_with_filename_or_rolename io (get parts 3) path) _ e in
      let (db, e3, e4) =
        >>=-eq-some (update_string_with_filename_or_rolename io (get parts 2) path) _ e2 in
      (cc, cc)

  rule_at-number :
      (n : ℕ) (line : Text) (r : HbaFileRules)
      → rule_at io path n line ≡ some r
      → (r.line_number ≡ n)
        × (r.raw ≡ line)
        × (is_ignored io line ≡ false)
        × (parse_hba_line io n line path ≡ some r)
  unfolding rule_at parse_hba_line
  rule_at-number n line r e = elim (Bool-cases (is_ignored io line)) [
    | inl i ↦ let x = rw i at e in cc
    | inr i ↦
        let parsed = rw i at e in
        let (parts, e1, e2) = >>=-eq-some (io.match_rule line) _ parsed in
        let (n_lem, raw_lem) = rule_of_match-number n line parts r e2 in (n_lem, raw_lem, i, parsed)
  ]

  rule_at-held :
      (n : ℕ) (line : Text) (r : HbaFileRules)
      → is_ignored io line ≡ false
      → parse_hba_line io n line path ≡ some r
      → rule_at io path n line ≡ some r
  unfolding rule_at
  rule_at-held n line r quiet parsed = rw quiet parsed

  -- From the line after the one with number `k` on.
  abbrev HoldsFrom : ℕ → List Text → ℕ → HbaFileRules → Type 0
  HoldsFrom k lines i r =
      (line : Text) × (get_elem? lines i ≡ some line)
      × (rule_at io path (k + i + 1) (trim_space line) ≡ some r)

  scan_lines-above :
      (k : ℕ) (lines : List Text)
      → All (λ m. k < m) (map (λ (r : HbaFileRules). r.line_number) (scan_lines io path k lines))
  unfolding scan_lines
  scan_lines-above k [] = tt
  scan_lines-above k (line ∷ lines) =
      let later =
        All-mono (λ n. n) (λ m. k + 1 < m) (λ m. k < m) _ (λ m h. omega arith)
          (scan_lines-above (k + 1) lines) in
      elim (Option-cases (rule_at io path (k + 1) (trim_space line))) [
        | inl e ↦ rw e later
        | inr (r, e) ↦
            let number = (rule_at-number (k + 1) (trim_space line) r e).0 in
            rw e (omega arith, later)
      ]

  scan_lines-Increasing :
      (k : ℕ) (lines : List Text)
      → Increasing (map (λ (r : HbaFileRules). r.line_number) (scan_lines io path k lines))
  unfolding scan_lines
  scan_lines-Increasing k [] = tt
  scan_lines-Increasing k (line ∷ lines) =
      elim (Option-cases (rule_at io path (k + 1) (trim_space line))) [
        | inl e ↦ rw e (scan_lines-Increasing (k + 1) lines)
        | inr (r, e) ↦
            let number = (rule_at-number (k + 1) (trim_space line) r e).0 in
            rw e (rw number (scan_lines-above (k + 1) lines), scan_lines-Increasing (k + 1) lines)
      ]

  scan_lines-In :
      (k : ℕ) (lines : List Text) (r : HbaFileRules)
      → In r (scan_lines io path k lines)
      → (i : ℕ) × HoldsFrom k lines i r
  unfolding scan_lines
  scan_lines-In k [] r i = elim i [ ]
  scan_lines-In k (line ∷ lines) r i =
      elim (Option-cases (rule_at io path (k + 1) (trim_space line))) [
        | inl e ↦
            let (j, (l, g, h)) = scan_lines-In (k + 1) lines r (rw e at i) in
            (suc j, (l, g, rw (shift k j) h))
        | inr (s, e) ↦ elim (In-cons (rw e at i)) [
          | inl same ↦ (0, (line, refl, rw (first k, same) e))
          | inr rest ↦
              let (j, (l, g, h)) = scan_lines-In (k + 1) lines r rest in
              (suc j, (l, g, rw (shift k j) h))
        ]
      ]
    where
      first : (k : ℕ) → k + 0 + 1 ≡ k + 1
      first k = omega arith

      shift : (k j : ℕ) → k + suc j + 1 ≡ k + 1 + j + 1
      shift k j = omega arith

  In-scan_lines :
      (k : ℕ) (lines : List Text) (i : ℕ) (r : HbaFileRules)
      → HoldsFrom k lines i r
      → In r (scan_lines io path k lines)
  unfolding scan_lines
  In-scan_lines k [] i r (l, g, h) = cc
  In-scan_lines k (line ∷ lines) zero r (l, g, h) =
      let same : line ≡ l = ground arith in
      let eq : k + 0 + 1 ≡ k + 1 = omega arith in
      let found : rule_at io path (k + 1) (trim_space line) ≡ some r = rw same (rw eq at h) in
      rw found (here refl)
  In-scan_lines k (line ∷ lines) (suc i) r (l, g, h) =
      let eq : k + suc i + 1 ≡ k + 1 + i + 1 = omega arith in
      let rest = In-scan_lines (k + 1) lines i r (l, g, rw eq at h) in
      elim (Option-cases (rule_at io path (k + 1) (trim_space line))) [
        | inl e ↦ rw e rest
        | inr (s, e) ↦ rw e (there rest)
      ]

  -- If the file can be read, `ScanHBAFile` returns the rules in rising order of their line numbers,
  -- and a rule is among them exactly if it is what `ParseHBALine` makes of some line, trimmed, with
  -- the number of the line counted from 1, and the line is not blank, a comment or a local rule.
  pub scan_hba_file-rules :
      (lines : List Text)
      → io.read_lines path ≡ some lines
      → (rules : List HbaFileRules) × (scan_hba_file io path ≡ some rules)
        × Increasing (map (λ (r : HbaFileRules). r.line_number) rules)
        × ((r : HbaFileRules) → In r rules ↔ ((i : ℕ) × Holds lines i r))
  unfolding scan_hba_file
  scan_hba_file-rules lines e = (
    scan_lines io path 0 lines,
    rw e refl,
    scan_lines-Increasing 0 lines,
    λ r. (
      (λ i.
          let (j, (l, g, h)) = scan_lines-In 0 lines r i in
          let eq : 0 + j + 1 ≡ j + 1 = omega arith in
          let (_, _, quiet, parsed) = rule_at-number (j + 1) (trim_space l) r (rw eq at h) in
          (j, (l, g, parsed, quiet))),
      λ (j, (l, g, parsed, quiet)).
          let eq : 0 + j + 1 ≡ j + 1 = omega arith in
          In-scan_lines 0 lines j r
            (l, g, rw eq (rule_at-held (j + 1) (trim_space l) r quiet parsed)),
    ),
  )
