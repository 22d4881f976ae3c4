-- ===== src/CriticalChecks/Resolve.antt =====
-- critical_checks_resolve.go and critical_checks.go: the status of a critical check from a result of
-- the CIS scan.
use ciscollector_v.Common.{
  ℕ, Bool, not, ◌&&◌, ◌||◌, ◌==◌, Option, none, some, List, [], ◌∷◌, Text, lit, beq, get_elem?,
  trim_space, to_lower, equal_fold, contains, is_nil, any, all, if◌then◌else◌,
}
use ciscollector_v.CriticalChecks.Settings.{
  CisResult, Tools, guc_setting_value, manual_check_text, manual_check_list, manual_check_rows,
}

-- "Pass", "Fail" and "", which leaves the status as it was
pub data Resolved : Type 0 where
  passes : Resolved
  fails : Resolved
  unresolved : Resolved

abbrev pass_if : Bool → Resolved
pass_if b = if b then passes else fails

-- the branch without a value: the reason of the failure may name the setting
abbrev fail_if_named : Bool → Resolved
fail_if_named b = if b then fails else unresolved

abbrev names : CisResult → Text → Bool
names r word = contains (to_lower r.fail_reason) word

-- a setting by its value
unfoldable pub resolve_value : Bool → Text → (Text → Bool) → Resolved
unfolding beq
resolve_value named v test = if beq v [] then fail_if_named named else pass_if (test v)

-- `resolveGUCOn`
unfoldable pub resolve_guc_on : CisResult → Text → Resolved
unfolding resolve_value guc_setting_value equal_fold contains
resolve_guc_on r guc =
    resolve_value (names r guc) (guc_setting_value r guc) (λ v. equal_fold v (lit "on"))

-- `resolveLogStatement`
unfoldable pub resolve_log_statement : CisResult → Resolved
unfolding resolve_value guc_setting_value equal_fold contains
resolve_log_statement r =
    resolve_value (names r (lit "log_statement")) (guc_setting_value r (lit "log_statement"))
      (λ v. not (equal_fold v (lit "none")))

abbrev pub required_tokens : List Text
required_tokens = lit "%m" ∷ lit "%p" ∷ lit "%l" ∷ lit "%d" ∷ lit "%u" ∷ lit "%a" ∷ lit "%h" ∷ []

-- `resolveLogLinePrefix`
unfoldable pub resolve_log_line_prefix : CisResult → Resolved
unfolding resolve_value guc_setting_value all contains
resolve_log_line_prefix r =
    resolve_value (names r (lit "log_line_prefix")) (guc_setting_value r (lit "log_line_prefix"))
      (λ v. all (λ tok. contains v tok) required_tokens)

-- the tests of `resolveLogDestination`, once one of the two settings is there
unfoldable pub destination_status : Text → Text → Resolved
unfolding equal_fold contains beq
destination_status dest collector =
    if equal_fold collector (lit "on")
      && (contains (to_lower dest) (lit "csvlog") || not (beq dest []))
    then passes
    else if contains (to_lower dest) (lit "syslog")
    then passes
    else if not (beq dest []) && not (equal_fold dest (lit "stderr"))
    then passes
    else if equal_fold collector (lit "off") && equal_fold dest (lit "stderr")
    then fails
    else if not (beq dest [])
    then passes
    else fails

-- `resolveLogDestination`
unfoldable pub resolve_log_destination : CisResult → Resolved
unfolding destination_status guc_setting_value beq contains
resolve_log_destination r =
    let dest = guc_setting_value r (lit "log_destination") in
    let collector = guc_setting_value r (lit "logging_collector") in
    if beq dest [] && beq collector []
    then fail_if_named (names r (lit "log_destination") || names r (lit "logging_collector"))
    else destination_status dest collector

-- `resolvePGAuditInstalled`
unfoldable pub resolve_pgaudit_installed : CisResult → Resolved
unfolding resolve_value guc_setting_value contains
resolve_pgaudit_installed r =
    resolve_value (names r (lit "pgaudit")) (guc_setting_value r (lit "shared_preload_libraries"))
      (λ v. contains (to_lower v) (lit "pgaudit"))

-- `resolvePGAuditLog`
unfoldable pub resolve_pgaudit_log : CisResult → Resolved
unfolding resolve_value guc_setting_value contains all
resolve_pgaudit_log r =
    resolve_value (names r (lit "pgaudit")) (guc_setting_value r (lit "pgaudit.log"))
      (λ v. all (λ part. contains (to_lower v) part) (lit "role" ∷ lit "ddl" ∷ lit "write" ∷ []))

-- `resolveMD5Passwords` and `resolvePublicDBTable`: no row passes
abbrev pub rows_status : Option (List (List Text)) → Resolved
rows_status none = unresolved
rows_status (some rows) = pass_if (is_nil rows)

-- `resolveListenAddresses`
unfoldable pub resolve_listen_addresses : CisResult → Resolved
unfolding any trim_space beq
resolve_listen_addresses r =
    let items = manual_check_list r.manual_check_data in
    if any (λ item. beq (trim_space item) (lit "*")) items
    then fails
    else if is_nil items
    then unresolved
    else passes

abbrev scram_group : Option (List Text) → Resolved
scram_group none = unresolved
scram_group (some groups) = elim (get_elem? groups 1) [
  | none ↦ unresolved
  | some m ↦ pass_if (equal_fold (trim_space m) (lit "scram-sha-256"))
]

abbrev pub resolved_text : Resolved → Text
resolved_text passes = lit "Pass"
resolved_text fails = lit "Fail"
resolved_text unresolved = []

-- `normalizeCriticalCheckStatus`
unfoldable pub normalize_critical_check_status : Text → Text
unfolding trim_space beq equal_fold
normalize_critical_check_status status =
    let word = to_lower (trim_space status) in
    if beq word (lit "pass")
    then lit "Pass"
    else if beq word (lit "fail")
    then lit "Fail"
    else if beq word (lit "manual") || beq word (lit "unknown")
    then lit "Manual"
    else if beq status [] || equal_fold status (lit "Unknown")
    then lit "Manual"
    else status

-- a manual status gives way to a resolved one
unfoldable pub status_or : Text → Text → Text
unfolding equal_fold beq
status_or status resolved =
    if equal_fold status (lit "Manual") && not (beq resolved []) then resolved else status

module _ (tools : Tools) where
  -- `resolveSCRAM`
  unfoldable pub resolve_scram : CisResult → Resolved
  unfolding guc_setting_value manual_check_text equal_fold trim_space beq
  resolve_scram r =
      let v = guc_setting_value r (lit "password_encryption") in
      if beq v []
      then scram_group (tools.password_encryption (manual_check_text tools r.manual_check_data))
      else pass_if (equal_fold v (lit "scram-sha-256"))

  -- the `switch` of `resolveCriticalFromCIS`
  unfoldable pub resolve_by_id : ℕ → CisResult → Resolved
  unfolding resolve_scram resolve_listen_addresses resolve_guc_on resolve_log_statement
      resolve_log_line_prefix resolve_log_destination resolve_pgaudit_installed resolve_pgaudit_log
  resolve_by_id id r =
      if id == 1
      then resolve_scram r
      else if id == 2 || id == 24
      then rows_status (manual_check_rows r.manual_check_data)
      else if id == 9
      then resolve_listen_addresses r
      else if id == 11
      then resolve_guc_on r (lit "log_connections")
      else if id == 12
      then resolve_guc_on r (lit "log_disconnections")
      else if id == 13
      then resolve_log_statement r
      else if id == 14
      then resolve_log_line_prefix r
      else if id == 15
      then resolve_log_destination r
      else if id == 16
      then resolve_pgaudit_installed r
      else if id == 17
      then resolve_pgaudit_log r
      else unresolved

  -- `resolveCriticalFromCIS`: a status of the scan stands
  unfoldable pub resolve_critical_from_cis : ℕ → CisResult → Text
  unfolding resolve_by_id normalize_critical_check_status trim_space equal_fold
  resolve_critical_from_cis id r =
      let s = trim_space r.status in
      if equal_fold s (lit "Pass") || equal_fold s (lit "Fail")
      then normalize_critical_check_status s
      else resolved_text (resolve_by_id id r)

  -- the status of `checkFromCIS`
  unfoldable pub cis_status : ℕ → CisResult → Text
  unfolding status_or resolve_critical_from_cis normalize_critical_check_status
  cis_status id r =
      status_or (normalize_critical_check_status r.status) (resolve_critical_from_cis id r)
