-- ===== src/CriticalChecks/Find.antt =====
-- critical_checks_resolve.go and critical_checks.go: the result of the CIS scan that a critical check
-- takes, and the check's status by it.
use ciscollector_v.Common.{
  ℕ, Bool, not, ◌&&◌, ◌||◌, ◌==◌, Option, none, some, List, [], ◌∷◌, Text, lit, trim_space,
  to_lower, contains, is_nil, any, all, if◌then◌else◌,
}
use ciscollector_v.Common.Sorting.{find}
use ciscollector_v.CriticalChecks.Settings.{CisResult, Tools, cis_search_blob}
use ciscollector_v.CriticalChecks.Resolve.{cis_status}

abbrev pub or_else : Option CisResult → Option CisResult → Option CisResult
or_else none other = other
or_else (some r) other = some r

module _ (tools : Tools) where
  -- `findCISFirst`
  unfoldable pub find_cis_first : List CisResult → List Text → Option CisResult
  unfolding find any contains cis_search_blob
  find_cis_first results parts =
      find (λ r. any (λ p. not (is_nil p) && contains (cis_search_blob tools r) (to_lower p)) parts)
        results

  -- `findCISByGUC`
  unfoldable pub find_cis_by_guc : List CisResult → Text → Option CisResult
  unfolding find contains cis_search_blob trim_space
  find_cis_by_guc results guc =
      find (λ r. contains (cis_search_blob tools r) (to_lower (trim_space guc))) results

  -- `findCISForCritical`
  unfoldable pub find_cis_for_critical : ℕ → List CisResult → Option CisResult
  unfolding find_cis_first find_cis_by_guc
  find_cis_for_critical id results =
      if id == 1
      then find_cis_first results (lit "password_encryption" ∷ lit "password complexity" ∷ [])
      else if id == 2
      then or_else
          (find_cis_first results (lit "rolpassword" ∷ lit "pg_shadow" ∷ lit "pg_authid" ∷ []))
          (find_cis_first results (lit "md5" ∷ lit "password" ∷ []))
      else if id == 6
      then find_cis_first results
          (lit "prosecdef" ∷ lit "security definer" ∷ lit "function privileges" ∷ [])
      else if id == 9
      then find_cis_by_guc results (lit "listen_addresses")
      else if id == 11
      then find_cis_by_guc results (lit "log_connections")
      else if id == 12
      then find_cis_by_guc results (lit "log_disconnections")
      else if id == 13
      then find_cis_by_guc results (lit "log_statement")
      else if id == 14
      then find_cis_by_guc results (lit "log_line_prefix")
      else if id == 15
      then or_else (find_cis_by_guc results (lit "log_destination"))
          (find_cis_by_guc results (lit "logging_collector"))
      else if id == 16
      then find_cis_first results (lit "pgaudit" ∷ lit "shared_preload" ∷ [])
      else if id == 17
      then find_cis_first results (lit "pgaudit.log" ∷ lit "pgaudit" ∷ [])
      else if id == 20
      then find_cis_first results (lit "pgpassword" ∷ lit "profile" ∷ [])
      else if id == 21
      then find_cis_first results (lit "pgpassword" ∷ lit "environment" ∷ [])
      else if id == 22
      then find_cis_first results (lit "psql_history" ∷ lit "command history" ∷ [])
      else if id == 24
      then find_cis_first results (lit "has_database_privilege" ∷ lit "public" ∷ lit "connect" ∷ [])
      else none

  -- `cisMatchesAll`
  unfoldable pub cis_matches_all : List Text → CisResult → Bool
  unfolding all contains cis_search_blob trim_space
  cis_matches_all parts r =
      all
        (λ p.
          is_nil (to_lower (trim_space p))
          || contains (cis_search_blob tools r) (to_lower (trim_space p)))
        parts
      && not (is_nil parts)

  -- `findCISMatch`
  unfoldable pub find_cis_match : List CisResult → List Text → Option CisResult
  unfolding find cis_matches_all
  find_cis_match results parts = find (cis_matches_all parts) results

  -- a check without a result is manual
  unfoldable pub status_of : ℕ → Option CisResult → Text
  unfolding cis_status
  status_of id none = lit "Manual"
  status_of id (some r) = cis_status tools id r

  -- the status of `evalCriticalCIS`
  unfoldable pub eval_critical_cis : List CisResult → ℕ → List Text → Text
  unfolding find_cis_for_critical find_cis_match status_of
  eval_critical_cis results id parts =
      status_of id (or_else (find_cis_for_critical id results) (find_cis_match results parts))
