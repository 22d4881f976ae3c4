-- ===== src/LogParser/Readiness/Agree.antt =====
-- readiness.go and the `Init` functions beside it: the report and the commands agree.
use ciscollector_v.Common.{
  ℕ, ltb, ◌≡◌, refl, ap, ◌∙◌, inl, inr, Bool, true, false, not, ◌==◌, Option, none, some, List, [],
  Text, lit, beq, contains, trim_space, is_nil, keep, keep-All, count, count-eq-zero, All, arith,
  Option-cases, if◌then◌else◌,
}
use ciscollector_v.Common.TextLaws.{contains-trim_space}
use ciscollector_v.LogParser.Feeds.{PgSettings}
use ciscollector_v.HbaRules.Defs.{Net}
use ciscollector_v.HbaRules.Parse.{HbaFileRules, parse_hba_file_rules}
use ciscollector_v.HbaRules.Files.{Sources}
use ciscollector_v.LogParser.Readiness.{
  unique_ips, inactive_user, hba_unused_lines, password_leak_scanner, default_log_parser_commands,
  cis_log_line_prefix_tokens, has_address, Verdict, is_pass, prefix_verdict, evaluate_prefix_cis,
  evaluate_cis_lma, parser_gate, opens, report_for, build_readiness_report, Init, unique_ip_init,
  inactive_users_init, password_leak_init, init_table, init_rules, unused_lines_init,
}

abbrev pub is_rejected : {H : Type 0} → Init H → Bool
is_rejected Init.settings_rejected = true
is_rejected Init.failed = false
is_rejected (Init.ready h) = false

gate_inactive :
    (s : PgSettings)
    → opens (parser_gate s inactive_user) ≡ not (is_rejected (inactive_users_init s))
unfolding parser_gate inactive_users_init beq
gate_inactive s = ground arith

gate_unique :
    (s : PgSettings) → opens (parser_gate s unique_ips) ≡ not (is_rejected (unique_ip_init s))
unfolding parser_gate unique_ip_init beq
gate_unique s = ground arith

gate_password :
    (s : PgSettings)
    → opens (parser_gate s password_leak_scanner) ≡ not (is_rejected (password_leak_init s))
unfolding parser_gate beq
gate_password s = refl

init_table-accepted :
    (net : Net) (io : Sources) (rules : Option (List HbaFileRules))
    → is_rejected (init_table net io rules) ≡ false
unfolding init_table
init_table-accepted net io none = refl
init_table-accepted net io (some rules) = elim (Option-cases (parse_hba_file_rules net rules)) [
  | inl e ↦ rw e refl
  | inr (t, e) ↦ rw e refl
]

gate_unused :
    (net : Net) (io : Sources) (s : PgSettings) (file : Text)
    (db_rules : Option (Option (List HbaFileRules)))
    → opens (parser_gate s hba_unused_lines)
      ≡ not (is_rejected (unused_lines_init net io s file db_rules))
unfolding parser_gate unused_lines_init beq
gate_unused net io s file db_rules =
    ground (arith, init_table-accepted net io (init_rules net io file db_rules))

-- For every setting of the server, the report says that a command can run exactly if the check at
-- the start of the command accepts the settings, for the reports on inactive users, on addresses,
-- on unused lines, whatever its rules come from, and for the scanner for leaked passwords.
pub parser_gate-init :
    (net : Net) (io : Sources) (s : PgSettings) (file : Text)
    (db_rules : Option (Option (List HbaFileRules)))
    → (opens (parser_gate s inactive_user) ≡ not (is_rejected (inactive_users_init s)))
      × (opens (parser_gate s unique_ips) ≡ not (is_rejected (unique_ip_init s)))
      × (opens (parser_gate s hba_unused_lines)
          ≡ not (is_rejected (unused_lines_init net io s file db_rules)))
      × (opens (parser_gate s password_leak_scanner) ≡ not (is_rejected (password_leak_init s)))
parser_gate-init net io s file db_rules =
    (gate_inactive s, gate_unique s, gate_unused net io s file db_rules, gate_password s)

verdict-pass :
    (b : Bool) (n m : ℕ)
    → is_pass (
        if b
        then Verdict.fail
        else if n == 0
        then Verdict.pass
        else if ltb n m
        then Verdict.partial
        else Verdict.fail)
      ≡ true
    → n ≡ 0
unfolding is_pass
verdict-pass b n m h = ground arith

prefix_verdict-tokens :
    (prefix : Text)
    → is_pass (prefix_verdict prefix) ≡ true
    → All (λ tok. not (contains prefix tok) ≡ false) cis_log_line_prefix_tokens
unfolding prefix_verdict is_pass
prefix_verdict-tokens prefix h =
    count-eq-zero (λ tok. not (contains prefix tok)) cis_log_line_prefix_tokens
      (verdict-pass (beq prefix [])
        (count (λ tok. not (contains prefix tok)) cis_log_line_prefix_tokens) 7 h)

cis_lma-pass :
    (b : Bool) (v : Verdict)
    → is_pass (evaluate_cis_lma b v) ≡ true
    → (b ≡ true) × (is_pass v ≡ true)
unfolding evaluate_cis_lma is_pass
cis_lma-pass b v h = ground arith

-- the address token of a prefix that passes
address_shown :
    (prefix : Text) → is_pass (evaluate_prefix_cis prefix) ≡ true → has_address prefix ≡ true
unfolding evaluate_prefix_cis
address_shown prefix h =
    let (_, (_, (_, (_, (_, (_, (shown, _))))))) = prefix_verdict-tokens (trim_space prefix) h in
    ground (arith, shown, contains-trim_space prefix (lit "%h"))

default_commands_open :
    (s : PgSettings)
    → s.log_connections ≡ true
    → has_address s.log_line_prefix ≡ true
    → All (λ c. opens (parser_gate s c) ≡ true) default_log_parser_commands
unfolding parser_gate beq
default_commands_open s on shown = ((ground arith), ((ground arith), ((ground arith), (refl, tt))))

runnable_lem :
    (decimal : ℕ → Text) (s : PgSettings)
    → (build_readiness_report decimal s []).runnable_commands
      ≡ keep (λ c. opens (parser_gate s c)) default_log_parser_commands
unfolding build_readiness_report
runnable_lem decimal s = refl

readiness_lem :
    (decimal : ℕ → Text) (s : PgSettings)
    → (build_readiness_report decimal s []).logparser_readiness
      ≡ not (is_nil (keep (λ c. opens (parser_gate s c)) default_log_parser_commands))
unfolding build_readiness_report
readiness_lem decimal s = refl

-- If the settings pass the CIS check of the report, then every one of the commands that run by
-- default can run, and the report lists them all.
pub build_readiness_report-pass :
    (decimal : ℕ → Text) (s : PgSettings)
    → is_pass (build_readiness_report decimal s []).cis_lma ≡ true
    → ((build_readiness_report decimal s []).runnable_commands ≡ default_log_parser_commands)
      × ((build_readiness_report decimal s []).logparser_readiness ≡ true)
unfolding build_readiness_report report_for
build_readiness_report-pass decimal s h =
    let (on, passed) = cis_lma-pass s.log_connections (evaluate_prefix_cis s.log_line_prefix) h in
    let kept =
      keep-All (λ c. opens (parser_gate s c)) default_log_parser_commands
        (default_commands_open s on (address_shown s.log_line_prefix passed)) in
    (runnable_lem decimal s ∙ kept, readiness_lem decimal s ∙ ap (λ cs. not (is_nil cs)) kept)
