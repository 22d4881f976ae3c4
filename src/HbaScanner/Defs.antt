-- ===== src/HbaScanner/Defs.antt =====
-- The scan of the rows, the nine checks that share it, and the choice between queries and file.
use ciscollector_v.Common.{
  ℕ, ◌+◌, Bool, false, not, ◌||◌, Option, none, some, List, [], ◌∷◌, Text, lit, beq, equal_fold,
  has_prefix, contains, fields, join, get_elem?, last?, is_nil, if◌then◌else◌,
}
use ciscollector_v.Common.Options.{◌>>=◌}

pub data Status : Type 0 where
  passed failed : Status

-- `model.HBAScannerResult`
pub record HbaScannerResult : Type 0 where
  pub title : Text
  pub control : ℕ
  pub description : Text
  pub status : Status
  pub fail_rows_line_nums : List ℕ
  pub fail_rows : List Text
  pub fail_rows_in_string : Text

-- `GetHBAFileData` on the lines of the file, from the number of the line before
unfoldable pub get_hba_rows : ℕ → List Text → List Text × List ℕ
get_hba_rows line_no [] = ([], [])
get_hba_rows line_no (line ∷ lines) =
    let (rows, nums) = get_hba_rows (line_no + 1) lines in
    if has_prefix line (lit "#") || beq line (lit "")
    then (rows, nums)
    else (line ∷ rows, (line_no + 1) ∷ nums)

unfoldable pub get_hba_file_data : List Text → List Text × List ℕ
unfolding get_hba_rows has_prefix beq
get_hba_file_data = get_hba_rows 0

-- The loop that every check has: `key` is the index of the row.
unfoldable pub scan_rows :
    (Text → Option Bool) → ℕ → List Text → List ℕ → Option (List Text × List ℕ)
scan_rows test key [] nums = some ([], [])
scan_rows test key (row ∷ rows) nums = do
  bad ← test row
  rest ← scan_rows test (key + 1) rows nums
  if bad then (do n ← get_elem? nums key; some (row ∷ rest.0, n ∷ rest.1)) else some rest

-- The end of every check, on the rows and the line numbers that the loop collected.
unfoldable pub conclude : Text → ℕ → Text → List Text × List ℕ → HbaScannerResult
conclude title control description (failed_rows, failed_row_line_nums) =
    if is_nil failed_rows
    then record {
      title = title;
      control = control;
      description = description;
      status = passed;
      fail_rows_line_nums = [];
      fail_rows = [];
      fail_rows_in_string = [];
    }
    else record {
      title = title;
      control = control;
      description = description;
      status = failed;
      fail_rows_line_nums = failed_row_line_nums;
      fail_rows = failed_rows;
      fail_rows_in_string = join (lit "\n") failed_rows;
    }

abbrev pub Check : Type 0
Check = List Text → List ℕ → Option HbaScannerResult

unfoldable pub run_check : Text → ℕ → Text → (Text → Option Bool) → Check
unfolding scan_rows conclude
run_check title control description test rows nums = do
  found ← scan_rows test 0 rows nums
  some (conclude title control description found)

-- `method := listOfRow[size-1]; strings.EqualFold(method, name)`
unfoldable pub method_is : Text → Text → Option Bool
unfolding equal_fold fields
method_is name row = do method ← last? (fields row); some (equal_fold method name)

-- `strings.EqualFold(listOfRow[i], "all")`
unfoldable pub column_is_all : ℕ → Text → Option Bool
unfolding equal_fold fields
column_is_all i row = do value ← get_elem? (fields row) i; some (equal_fold value (lit "all"))

-- `!strings.EqualFold(listOfRow[0], "host")`
unfoldable pub type_is_not_host : Text → Option Bool
unfolding equal_fold fields
type_is_not_host row = do
  dbtype ← get_elem? (fields row) 0
  some (not (equal_fold dbtype (lit "host")))

-- `strings.Contains(listOfRow[3], …)` for the two open networks
unfoldable pub open_address : List Text → Option Bool
open_address columns = do
  address ← get_elem? columns 3
  some (contains address (lit "0.0.0.0/0") || contains address (lit "::0/0"))

-- the address is read for the host types only
unfoldable pub address_is_open : Text → Option Bool
unfolding contains fields open_address
address_is_open row = do
  dbtype ← get_elem? (fields row) 0
  let is_host = contains dbtype (lit "host") || contains dbtype (lit "HOST")
  if is_host then open_address (fields row) else some false

unfoldable pub check_trust_in_method : Check
unfolding run_check method_is
check_trust_in_method =
    run_check (lit "Check if Trust auth method is being used ") 1
      (lit "Usage of Trust method is not secure") (method_is (lit "trust"))

unfoldable pub check_all_in_database : Check
unfolding run_check column_is_all
check_all_in_database =
    run_check (lit "Check if ‘all’ is used under database field ") 2
      (lit
        "Follow the least privilege method - Be specific and give the needed database(s) and not all")
      (column_is_all 1)

unfoldable pub check_all_in_user : Check
unfolding run_check column_is_all
check_all_in_user =
    run_check (lit "Check if ‘all’ is used under user column") 3
      (lit
        "Follow the least privilege method - Be specific and give the needed user(s) and not all")
      (column_is_all 2)

unfoldable pub check_md5_in_method : Check
unfolding run_check method_is
check_md5_in_method =
    run_check (lit "Check if md5 auth method is being used") 4 (lit "Better to use scram-sha-256")
      (method_is (lit "md5"))

unfoldable pub check_peer_in_method : Check
unfolding run_check method_is
check_peer_in_method =
    run_check (lit "Check if peer auth method is being used ") 5
      (lit
        "Review the lines in hba containing peer method.\nAlthough peer method might be ok to use, \nplease check the users and the hba lines to review furthe")
      (method_is (lit "peer"))

unfoldable pub check_ident_in_method : Check
unfolding run_check method_is
check_ident_in_method =
    run_check (lit "Check if ident auth method is being used ") 6
      (lit "Usage of Trust method is might not be secure") (method_is (lit "ident"))

unfoldable pub check_password_in_method : Check
unfolding run_check method_is
check_password_in_method =
    run_check (lit "Check if password auth method is being used ") 7
      (lit "Usage of password method is might not be secure") (method_is (lit "password"))

unfoldable pub check_type : Check
unfolding run_check type_is_not_host
check_type =
    run_check
      (lit "Check for the presence of host under TYPE column (hostssl should be used for SSL)") 8
      (lit
        "Better to enforce ssl to secure your connections - use hostssl instead of host (after enabling ssl)")
      type_is_not_host

unfoldable pub check_ip_privilege : Check
unfolding run_check address_is_open
check_ip_privilege =
    run_check (lit "0.0.0.0/0 (IPv4) and ::0/0 (IPv6) in address field") 9
      (lit "Follow the least privilege method - Be specific and give the needed ip(s) and not all")
      address_is_open

-- The values of `funcStore` and `hbafilefuncStore`, by name.
pub data CheckName : Type 0 where
  trust all_database all_user md5 peer ident password db_type ip_privilege : CheckName

unfoldable pub check : CheckName → Check
unfolding check_trust_in_method check_all_in_database check_all_in_user check_md5_in_method
    check_peer_in_method check_ident_in_method check_password_in_method check_type
    check_ip_privilege
check trust = check_trust_in_method
check all_database = check_all_in_database
check all_user = check_all_in_user
check md5 = check_md5_in_method
check peer = check_peer_in_method
check ident = check_ident_in_method
check password = check_password_in_method
check db_type = check_type
check ip_privilege = check_ip_privilege

-- `hbafilefuncStore`, in the order of its keys 1 to 9
abbrev pub hbafile_func_store : List CheckName
hbafile_func_store =
    trust ∷ all_database ∷ all_user ∷ md5 ∷ peer ∷ ident ∷ password ∷ db_type ∷ ip_privilege ∷ []

-- What a run of the scanner comes to: its results, `os.Exit(1)`, or a panic.
pub data Outcome : Type 0 where
  results : List HbaScannerResult → Outcome
  exited panicked : Outcome

-- The results of the query checks, unless one of them fails; a check that failed is `none`.
unfoldable pub query_results : List (Option HbaScannerResult) → Option (List HbaScannerResult)
query_results [] = some []
query_results (r ∷ rs) = do result ← r; rest ← query_results rs; some (result ∷ rest)

unfoldable pub file_results : List CheckName → List Text → List ℕ → Option (List HbaScannerResult)
unfolding check
file_results [] rows nums = some []
file_results (c ∷ cs) rows nums = do
  result ← check c rows nums
  rest ← file_results cs rows nums
  some (result ∷ rest)

-- `HBAScanner`, on the outcomes of the nine queries and the lines of the file if it can be read
unfoldable pub hba_scanner : List (Option HbaScannerResult) → Option (List Text) → Outcome
unfolding query_results file_results get_hba_file_data
hba_scanner queries file = elim (query_results queries) [
  | some rs ↦ results rs
  | none ↦ elim file [
    | none ↦ exited
    | some lines ↦
        let (rows, nums) = get_hba_file_data lines in
        elim (file_results hbafile_func_store rows nums) [ none ↦ panicked | some rs ↦ results rs ]
  ]
]
