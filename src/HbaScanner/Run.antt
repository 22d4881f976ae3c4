-- ===== src/HbaScanner/Run.antt =====
-- The whole scanner: queries first, then the file; and what the check of the TYPE column flags.
use ciscollector_v.Common.{
  ◌≡◌, refl, ◌∙◌, ◌⊎◌, inl, inr, Bool, true, false, ◌&&◌, Option, none, some, List, [], ◌∷◌, Text,
  lit, equal_fold, fields, get_elem?, any, arith, Bool-cases, Option-cases, fold_case,
}
use ciscollector_v.Common.TextLaws.{equal_fold_iff}
use ciscollector_v.HbaScanner.Defs.{
  failed, HbaScannerResult, get_hba_file_data, CheckName, db_type, hbafile_func_store, results,
  panicked, query_results, file_results, hba_scanner,
}
use ciscollector_v.HbaScanner.Laws.{
  is_entry, column_or, violates, reported, refused, outcome, IsReport, Decided, check-Decided,
}

-- one report for each check, in order
abbrev pub Reports : List CheckName → List Text → List HbaScannerResult → Type 0
Reports [] lines [] = Unit
Reports (c ∷ cs) lines (r ∷ rs) = IsReport c lines r × Reports cs lines rs
Reports [] lines (r ∷ rs) = ⊥
Reports (c ∷ cs) lines [] = ⊥

-- What the checks of the file come to together.
abbrev pub FileOutcome : List CheckName → List Text → Option (List HbaScannerResult) → Type 0
FileOutcome cs lines o =
    ((any (λ c. any (refused c) lines) cs ≡ true) × (o ≡ none))
    ⊎ ((any (λ c. any (refused c) lines) cs ≡ false)
        × ((rs : List HbaScannerResult) × (o ≡ some rs) × Reports cs lines rs))

file_results-FileOutcome :
    (cs : List CheckName) (lines : List Text)
    → FileOutcome cs lines (file_results cs (get_hba_file_data lines).0 (get_hba_file_data lines).1)
unfolding file_results any
file_results-FileOutcome [] lines = inr (refl, ([], refl, tt))
file_results-FileOutcome (c ∷ cs) lines =
    step (check-Decided c lines) (file_results-FileOutcome cs lines)
  where
    step :
        Decided c lines (outcome c lines)
        → FileOutcome cs lines
            (file_results cs (get_hba_file_data lines).0 (get_hba_file_data lines).1)
        → FileOutcome
            (c ∷ cs)
            lines
            (file_results (c ∷ cs) (get_hba_file_data lines).0 (get_hba_file_data lines).1)
    step (inl (short, e)) rest = inl (rw short, rw e)
    step (inr (fine, (r, e, report))) (inl (short, e')) = inl (ground arith, ground arith)
    step (inr (fine, (r, e, report))) (inr (fine', (rs, e', reports))) =
        inr (ground arith, (r ∷ rs, ground arith, (report, reports)))

-- When some query fails, the scanner reads the file. It panics exactly if some check refuses an
-- entry as too short; otherwise it returns the verdicts of the nine checks, in order, and
-- nothing of the queries that had succeeded.
pub hba_scanner-file :
    (queries : List (Option HbaScannerResult)) (lines : List Text)
    → query_results queries ≡ none
    → ((any (λ c. any (refused c) lines) hbafile_func_store ≡ true)
        × (hba_scanner queries (some lines) ≡ panicked))
      ⊎ ((any (λ c. any (refused c) lines) hbafile_func_store ≡ false)
          × ((rs : List HbaScannerResult) × (hba_scanner queries (some lines) ≡ results rs)
              × Reports hbafile_func_store lines rs))
unfolding hba_scanner
hba_scanner-file queries lines h = elim (file_results-FileOutcome hbafile_func_store lines) [
  | inl (short, e) ↦ inl (short, rw (h, e, hba_scanner))
  | inr (fine, (rs, e, reports)) ↦ inr (fine, (rs, rw (h, e, hba_scanner), reports))
]

any_mono :
    (p q : Text → Bool)
    → ((x : Text) → p x ≡ true → q x ≡ true)
    → (xs : List Text) → any p xs ≡ true
    → any q xs ≡ true
unfolding any
any_mono p q h [] e = e
any_mono p q h (x ∷ xs) e = ground (arith, h x, any_mono p q h xs)

-- An entry whose first column is a name, in any case.
abbrev pub is_of_type : Text → Text → Bool
is_of_type name line =
    is_entry line && column_or (get_elem? (fields line) 0) false (λ w. equal_fold w name)

hostssl_is_not_host :
    (w : Text) → equal_fold w (lit "hostssl") ≡ true → equal_fold w (lit "host") ≡ false
hostssl_is_not_host w e = elim (Bool-cases (equal_fold w (lit "host"))) [
  | inl h ↦ absurd (
      unfold fold_case in
      cc ((equal_fold_iff w (lit "hostssl")).0 e, (equal_fold_iff w (lit "host")).0 h))
  | inr n ↦ n
]

hostssl_violates :
    (line : Text) → is_of_type (lit "hostssl") line ≡ true → reported db_type line ≡ true
unfolding violates
hostssl_violates line h = elim (Option-cases (get_elem? (fields line) 0)) [
  | inl e ↦ ground arith
  | inr (w, e) ↦ ground (arith, hostssl_is_not_host w)
]

-- If the check that is to enforce `hostssl` returns a result for a file with a `hostssl` entry, then
-- it fails the file.
pub check_type-hostssl :
    (lines : List Text) {r : HbaScannerResult}
    → any (is_of_type (lit "hostssl")) lines ≡ true
    → outcome db_type lines ≡ some r
    → r.status ≡ failed
check_type-hostssl lines {r} h e = go (check-Decided db_type lines)
  where
    go : Decided db_type lines (outcome db_type lines) → r.status ≡ failed
    go (inl (_, n)) = cc
    go (inr (_, (r', s, report))) =
        let bad =
          any_mono (is_of_type (lit "hostssl")) (reported db_type) hostssl_violates lines h in
        let same : r ≡ r' = cc in rw same (report.status ∙ rw bad)
