-- ===== src/HbaScanner/Laws/Scan.antt =====
-- The loop of a check, for any row test: what it collects from the lines of a file.
use ciscollector_v.Common.{
  ℕ, ◌+◌, ◌≡◌, refl, ◌∙◌, Bool, false, not, ◌&&◌, ◌||◌, Option, none, some, List, [], ◌∷◌, ◌++◌,
  Text, lit, beq, has_prefix, get_elem?, keep, any, length, length-append, if◌then◌else◌, arith,
}
use mathlib.Core.List.{append_assoc}
use ciscollector_v.Common.Options.{◌>>=◌}
use ciscollector_v.HbaScanner.Defs.{get_hba_rows, get_hba_file_data, scan_rows, conclude, run_check}

-- A line that the file reader hands on.
unfoldable pub is_entry : Text → Bool
is_entry line = not (has_prefix line (lit "#") || beq line (lit ""))

-- The numbers, from `k + 1`, of the lines that pass a test.
unfoldable pub places : (Text → Bool) → ℕ → List Text → List ℕ
places p k [] = []
places p k (line ∷ lines) =
    let rest = places p (k + 1) lines in if p line then (k + 1) ∷ rest else rest

-- the loop, with the two lists walked together
scan_pairs : (Text → Option Bool) → List Text → List ℕ → Option (List Text × List ℕ)
scan_pairs test [] nums = some ([], [])
scan_pairs test (row ∷ rows) [] = none
scan_pairs test (row ∷ rows) (n ∷ nums) = do
  bad ← test row
  rest ← scan_pairs test rows nums
  if bad then some (row ∷ rest.0, n ∷ rest.1) else some rest

get_elem?-length {ℓ} :
    {A : Type ℓ} (xs : List A) (y : A) (ys : List A) → get_elem? (xs ++ y ∷ ys) (length xs) ≡ some y
get_elem?-length [] y ys = refl
get_elem?-length (x ∷ xs) y ys = get_elem?-length xs y ys

scan_rows-scan_pairs :
    (test : Text → Option Bool) (rows : List Text) (before nums : List ℕ)
    → length rows ≡ length nums
    → scan_rows test (length before) rows (before ++ nums) ≡ scan_pairs test rows nums
unfolding scan_rows scan_pairs
scan_rows-scan_pairs test [] before nums h = refl
scan_rows-scan_pairs test (row ∷ rows) before [] h = absurd (omega arith)
scan_rows-scan_pairs test (row ∷ rows) before (n ∷ nums) h =
    let ih = scan_rows-scan_pairs test rows (before ++ n ∷ []) nums (omega arith) in
    let moved = rw (length-append before (n ∷ []), append_assoc) at ih in
    ground (arith, moved, get_elem?-length before n nums)

length-get_hba_rows :
    (k : ℕ) (lines : List Text) → length (get_hba_rows k lines).0 ≡ length (get_hba_rows k lines).1
unfolding get_hba_rows
length-get_hba_rows k [] = refl
length-get_hba_rows k (line ∷ lines) = ground (arith, length-get_hba_rows (k + 1) lines)

module _ (test : Text → Option Bool) (short bad : Text → Bool)
    (agrees : (row : Text) → test row ≡ (if short row then none else some (bad row))) where
  -- what the loop comes to on the lines behind line `k`
  abbrev pub expected : ℕ → List Text → Option (List Text × List ℕ)
  expected k lines =
      if any (λ l. is_entry l && short l) lines
      then none
      else some (keep (λ l. is_entry l && bad l) lines, places (λ l. is_entry l && bad l) k lines)

  scan_pairs-expected :
      (k : ℕ) (lines : List Text)
      → scan_pairs test (get_hba_rows k lines).0 (get_hba_rows k lines).1 ≡ expected k lines
  unfolding scan_pairs get_hba_rows any keep places is_entry
  scan_pairs-expected k [] = refl
  scan_pairs-expected k (line ∷ lines) =
      ground (arith, scan_pairs-expected (k + 1) lines, agrees line)

  pub scan_rows-expected :
      (lines : List Text)
      → scan_rows test 0 (get_hba_file_data lines).0 (get_hba_file_data lines).1 ≡ expected 0 lines
  unfolding get_hba_file_data
  scan_rows-expected lines =
      scan_rows-scan_pairs test (get_hba_rows 0 lines).0 [] (get_hba_rows 0 lines).1
        (length-get_hba_rows 0 lines)
      ∙ scan_pairs-expected 0 lines

  -- A check panics on a short row, and otherwise concludes from the rows that its test is for.
  pub run_check-expected :
      (title : Text) (control : ℕ) (description : Text) (lines : List Text)
      → run_check title control description test
          (get_hba_file_data lines).0
          (get_hba_file_data lines).1
        ≡ (if any (λ l. is_entry l && short l) lines
            then none
            else some (
                conclude title control description (
                  keep (λ l. is_entry l && bad l) lines,
                  places (λ l. is_entry l && bad l) 0 lines,
                )))
  unfolding run_check
  run_check-expected title control description lines = ground (arith, scan_rows-expected lines)

pub places-nil :
    (p : Text → Bool) (k : ℕ) (lines : List Text) → any p lines ≡ false → places p k lines ≡ []
unfolding any places
places-nil p k [] h = refl
places-nil p k (line ∷ lines) h = ground (arith, places-nil p (k + 1) lines)
