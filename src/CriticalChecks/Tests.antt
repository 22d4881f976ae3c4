-- ===== src/CriticalChecks/Tests.antt =====
-- A manual check that shows three settings.
use ciscollector_v.Common.{
  ◌≡◌, ◌≢◌, ◌↔◌, refl, true, none, some, [], ◌∷◌, lit, beq, equal_fold, lower,
}
use ciscollector_v.CriticalChecks.Settings.{
  ManualCheckData, ManualCheck, CisResult, Tools, guc_setting_value,
}
use ciscollector_v.CriticalChecks.Resolve.{
  Resolved, resolve_pgaudit_log, resolve_log_line_prefix, cis_status,
}
use ciscollector_v.CriticalChecks.Laws.{resolve_pgaudit_log-passes, resolve_log_line_prefix-passes}
use ciscollector_v.LogParser.Readiness.{is_pass, evaluate_prefix_cis}

abbrev shown_settings : ManualCheck
shown_settings = record {
  description = [];
  list = [];
  table = some (record {
    columns = lit "name" ∷ lit "setting" ∷ [];
    rows =
        (lit "log_line_prefix" ∷ lit " %m %p %l %d %u %a %h " ∷ [])
        ∷ (lit "pgaudit.log" ∷ lit "role,ddl,write" ∷ [])
        ∷ (lit "log_connections" ∷ lit "off" ∷ [])
        ∷ [];
  });
}

abbrev manual_result : CisResult
manual_result = record {
  fail_reason = [];
  status = lit "Manual ";
  description = [];
  control = lit "3.1";
  title = lit "Logging";
  procedure = [];
  manual_check_data = ManualCheckData.table_check shown_settings;
}

abbrev test_tools : Tools
test_tools = record { render = λ c. []; password_encryption = λ t. none }

prefix_runs : resolve_log_line_prefix manual_result ≡ Resolved.passes
unfolding resolve_log_line_prefix beq lower
prefix_runs = refl

pgaudit_runs : resolve_pgaudit_log manual_result ≡ Resolved.unresolved
unfolding resolve_pgaudit_log beq lower
pgaudit_runs = refl

connections_runs : cis_status test_tools 11 manual_result ≡ lit "Fail"
unfolding cis_status beq equal_fold lower
connections_runs = refl

resolve_log_line_prefix-passes_example :
    (resolve_log_line_prefix manual_result ≡ Resolved.passes) ↔ (
      is_pass (evaluate_prefix_cis (guc_setting_value manual_result (lit "log_line_prefix")))
      ≡ true)
resolve_log_line_prefix-passes_example = resolve_log_line_prefix-passes manual_result

resolve_pgaudit_log-passes_example : resolve_pgaudit_log manual_result ≢ Resolved.passes
resolve_pgaudit_log-passes_example = resolve_pgaudit_log-passes manual_result

-- the result of another check, which says nothing of log_connections
abbrev other_result : CisResult
other_result = record manual_result {
  title = lit "Ports";
  status = lit "Fail";
  manual_check_data = ManualCheckData.absent;
}

abbrev named_result : CisResult
named_result = record manual_result { title = lit "Ensure Log_Connections is set" }
