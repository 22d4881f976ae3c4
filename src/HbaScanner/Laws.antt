-- ===== src/HbaScanner/Laws.antt =====
-- What the nine checks report on the lines of a file, and when they panic.
mod Scan
unfoldable pub use Scan.{is_entry, places}
use ciscollector_v.Common.{
  ℕ, ◌≡◌, refl, sym, ap, ◌∙◌, ◌↔◌, ◌⊎◌, Bool, true, false, not, ◌&&◌, ◌||◌, inl, inr, Option, none,
  some, List, [], ◌∷◌, Text, String, lit, equal_fold, contains, fields, get_elem?, last?, is_nil,
  keep, any, if◌then◌else◌, arith, Bool-cases, keep-eq-nil, join,
}
use ciscollector_v.Common.Options.{◌>>=◌}
use Scan.{run_check-expected, places-nil}
use ciscollector_v.HbaScanner.Defs.{
  Status, passed, failed, HbaScannerResult, get_hba_file_data, scan_rows, conclude, run_check,
  method_is, column_is_all, type_is_not_host, open_address, address_is_open, Check, CheckName,
  trust, all_database, all_user, md5, peer, ident, password, db_type, ip_privilege, check,
}

-- What a test says of a column, where there is one.
abbrev pub column_or : Option Text → Bool → (Text → Bool) → Bool
column_or none default p = default
column_or (some w) default p = p w

abbrev pub is_host_type : Text → Bool
is_host_type t = contains t (lit "host") || contains t (lit "HOST")

-- The row has too few columns for the check.
unfoldable pub too_short : CheckName → Text → Bool
too_short all_database row = column_or (get_elem? (fields row) 1) true (λ _. false)
too_short all_user row = column_or (get_elem? (fields row) 2) true (λ _. false)
too_short ip_privilege row =
    column_or (get_elem? (fields row) 0) true
      λ t. is_host_type t && column_or (get_elem? (fields row) 3) true (λ _. false)
too_short _ row = is_nil (fields row)

abbrev pub last_is : Text → Text → Bool
last_is name row = column_or (last? (fields row)) false (λ m. equal_fold m name)

-- The row is one that the check is to report.
unfoldable pub violates : CheckName → Text → Bool
violates trust row = last_is (lit "trust") row
violates md5 row = last_is (lit "md5") row
violates peer row = last_is (lit "peer") row
violates ident row = last_is (lit "ident") row
violates password row = last_is (lit "password") row
violates all_database row =
    column_or (get_elem? (fields row) 1) false (λ w. equal_fold w (lit "all"))
violates all_user row = column_or (get_elem? (fields row) 2) false (λ w. equal_fold w (lit "all"))
violates db_type row =
    column_or (get_elem? (fields row) 0) false (λ w. not (equal_fold w (lit "host")))
violates ip_privilege row = column_or (get_elem? (fields row) 0) false λ t.
    is_host_type t
    && column_or (get_elem? (fields row) 3) false
        (λ w. contains w (lit "0.0.0.0/0") || contains w (lit "::0/0"))

-- The number of a check, its key in the source's map.
unfoldable pub control_of : CheckName → ℕ
control_of trust = 1
control_of all_database = 2
control_of all_user = 3
control_of md5 = 4
control_of peer = 5
control_of ident = 6
control_of password = 7
control_of db_type = 8
control_of ip_privilege = 9

abbrev outcome_of : Text → Bool → Bool → Option Bool
outcome_of row short bad = if short then none else some bad

method_is-outcome :
    (name row : Text) → method_is name row ≡ outcome_of row (is_nil (fields row)) (last_is name row)
unfolding method_is
method_is-outcome name row = go (fields row)
  where
    go :
        (ws : List Text)
        → (last? ws >>= λ m. some (equal_fold m name))
          ≡ outcome_of row (is_nil ws) (column_or (last? ws) false (λ m. equal_fold m name))
    go [] = refl
    go (w ∷ []) = refl
    go (w ∷ v ∷ ws) = go (v ∷ ws)

type-outcome :
    (row : Text)
    → type_is_not_host row ≡ outcome_of row (too_short db_type row) (violates db_type row)
unfolding type_is_not_host too_short violates
type-outcome row = ground arith

ip-outcome :
    (row : Text)
    → address_is_open row ≡ outcome_of row (too_short ip_privilege row) (violates ip_privilege row)
unfolding address_is_open open_address too_short violates
ip-outcome row = ground arith

database-outcome :
    (row : Text)
    → column_is_all 1 row ≡ outcome_of row (too_short all_database row) (violates all_database row)
unfolding column_is_all too_short violates
database-outcome row = ground arith

user-outcome :
    (row : Text)
    → column_is_all 2 row ≡ outcome_of row (too_short all_user row) (violates all_user row)
unfolding column_is_all too_short violates
user-outcome row = ground arith

-- A line that the check is to report.
abbrev pub reported : CheckName → Text → Bool
reported c line = is_entry line && violates c line

-- A line on which the check panics.
abbrev pub refused : CheckName → Text → Bool
refused c line = is_entry line && too_short c line

-- The check's verdict on the lines of a file.
pub record IsReport (c : CheckName) (lines : List Text) (r : HbaScannerResult) : Type 0 where
  pub control : r.control ≡ control_of c
  pub rows : r.fail_rows ≡ keep (reported c) lines
  pub line_nums : r.fail_rows_line_nums ≡ places (reported c) 0 lines
  pub status : r.status ≡ (if any (reported c) lines then failed else passed)
  pub joined : r.fail_rows_in_string ≡ join (lit "\n") r.fail_rows

conclude-IsReport :
    (c : CheckName) (title description : Text) (lines : List Text)
    → IsReport c lines (
        conclude title
          (control_of c)
          description
          (keep (reported c) lines, places (reported c) 0 lines))
unfolding conclude join
conclude-IsReport c title description lines =
    let empty = keep-eq-nil (reported c) lines in
    elim (Bool-cases (any (reported c) lines)) [
      | inl e ↦ record {
        control = ground (arith, empty);
        rows = ground (arith, empty);
        line_nums = ground (arith, empty);
        status = ground (arith, empty);
        joined = ground (arith, empty);
      }
      | inr e ↦ record {
        control = ground (arith, empty);
        rows = ground (arith, empty);
        line_nums = ground (arith, empty, places-nil (reported c) 0 lines e);
        status = ground (arith, empty);
        joined = ground (arith, empty);
      }
    ]

abbrev pub outcome : CheckName → List Text → Option HbaScannerResult
outcome c lines = check c (get_hba_file_data lines).0 (get_hba_file_data lines).1

-- What a check comes to: a panic on a short entry, or else its verdict.
abbrev pub Decided : CheckName → List Text → Option HbaScannerResult → Type 0
Decided c lines o =
    ((any (refused c) lines ≡ true) × (o ≡ none))
    ⊎ ((any (refused c) lines ≡ false)
        × ((r : HbaScannerResult) × (o ≡ some r) × IsReport c lines r))

module _ (c : CheckName) (test : Text → Option Bool) where
  Decided-run_check :
      (agrees : (row : Text) → test row ≡ outcome_of row (too_short c row) (violates c row))
      (title description : Text) (lines : List Text)
      → Decided c lines (
          run_check title
            (control_of c)
            description
            test
            (get_hba_file_data lines).0
            (get_hba_file_data lines).1)
  Decided-run_check agrees title description lines =
      let run =
        run_check-expected test (too_short c) (violates c) agrees title (control_of c) description
          lines in
      rw run (elim (Bool-cases (any (refused c) lines)) [
        | inl e ↦ inl (e, rw e)
        | inr e ↦ inr (e, (_, rw e, conclude-IsReport c title description lines))
      ])

-- On the lines of any file, each of the nine checks panics exactly if some entry (a line that is
-- neither empty nor a comment) has too few columns for it. Otherwise its result has the check's
-- control number, the violating entries in file order, their line numbers, the status that
-- says whether there are any, and those entries joined by newlines.
pub check-Decided : (c : CheckName) (lines : List Text) → Decided c lines (outcome c lines)
unfolding check control_of
check-Decided trust lines =
    Decided-run_check trust (method_is (lit "trust"))
      (λ row. unfold too_short violates in method_is-outcome (lit "trust") row) _ _ lines
check-Decided all_database lines =
    Decided-run_check all_database (column_is_all 1) database-outcome _ _ lines
check-Decided all_user lines = Decided-run_check all_user (column_is_all 2) user-outcome _ _ lines
check-Decided md5 lines =
    Decided-run_check md5 (method_is (lit "md5"))
      (λ row. unfold too_short violates in method_is-outcome (lit "md5") row) _ _ lines
check-Decided peer lines =
    Decided-run_check peer (method_is (lit "peer"))
      (λ row. unfold too_short violates in method_is-outcome (lit "peer") row) _ _ lines
check-Decided ident lines =
    Decided-run_check ident (method_is (lit "ident"))
      (λ row. unfold too_short violates in method_is-outcome (lit "ident") row) _ _ lines
check-Decided password lines =
    Decided-run_check password (method_is (lit "password"))
      (λ row. unfold too_short violates in method_is-outcome (lit "password") row) _ _ lines
check-Decided db_type lines = Decided-run_check db_type type_is_not_host type-outcome _ _ lines
check-Decided ip_privilege lines =
    Decided-run_check ip_privilege address_is_open ip-outcome _ _ lines
