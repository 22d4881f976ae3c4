-- ===== src/HbaScanner/Tests.antt =====
-- The scanner on a small file.
use ciscollector_v.Common.{
  ◌≡◌, refl, ◌⊎◌, true, false, Option, none, some, List, [], ◌∷◌, Text, lit, any, join,
}
use ciscollector_v.HbaScanner.Defs.{
  failed, HbaScannerResult, get_hba_file_data, check, trust, db_type, hbafile_func_store, results,
  panicked, query_results, hba_scanner,
}
use ciscollector_v.HbaScanner.Laws.{refused, outcome, Decided, check-Decided}
use ciscollector_v.HbaScanner.Run.{Reports, hba_scanner-file}

abbrev small_file : List Text
small_file =
    lit "# TYPE DATABASE USER ADDRESS METHOD"
    ∷ lit "hostssl all app 10.0.0.0/8 scram-sha-256"
    ∷ lit ""
    ∷ lit "host shop app 0.0.0.0/0 TRUST"
    ∷ []

abbrev failed_query : List (Option HbaScannerResult)
failed_query = none ∷ []

check-Decided_example : Decided trust small_file (outcome trust small_file)
check-Decided_example = check-Decided trust small_file

hba_scanner-file_example :
    ((any (λ c. any (refused c) small_file) hbafile_func_store ≡ true)
      × (hba_scanner failed_query (some small_file) ≡ panicked))
    ⊎ ((any (λ c. any (refused c) small_file) hbafile_func_store ≡ false)
        × ((rs : List HbaScannerResult) × (hba_scanner failed_query (some small_file) ≡ results rs)
            × Reports hbafile_func_store small_file rs))
unfolding query_results
hba_scanner-file_example = hba_scanner-file failed_query small_file refl

abbrev hostssl_row : Text
hostssl_row = lit "hostssl all app 10.0.0.0/8 scram-sha-256"

abbrev type_result : HbaScannerResult
type_result = record {
  title = lit "Check for the presence of host under TYPE column (hostssl should be used for SSL)";
  control = 8;
  description =
      lit
        "Better to enforce ssl to secure your connections - use hostssl instead of host (after enabling ssl)";
  status = failed;
  fail_rows_line_nums = 2 ∷ [];
  fail_rows = hostssl_row ∷ [];
  fail_rows_in_string = hostssl_row;
}

outcome-small_file : outcome db_type small_file ≡ some type_result
unfolding get_hba_file_data check join
outcome-small_file = refl
