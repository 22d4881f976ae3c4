-- ===== src/LogParser/Readiness/Tests.antt =====
-- A server whose settings pass, and one that logs users alone.
use ciscollector_v.Common.{
  ◌≡◌, refl, true, false, not, none, some, [], ◌∷◌, Text, lit, beq, contains,
}
use ciscollector_v.LogParser.Feeds.{PgSettings}
use ciscollector_v.HbaRules.Defs.{Net}
use ciscollector_v.HbaRules.Files.{Sources}
use ciscollector_v.LogParser.Readiness.{
  unique_ips, inactive_user, hba_unused_lines, password_leak_scanner, default_log_parser_commands,
  is_pass, parser_gate, opens, build_readiness_report, unique_ip_init, inactive_users_init,
  password_leak_init, unused_lines_init,
}
use ciscollector_v.LogParser.Readiness.Agree.{
  is_rejected, parser_gate-init, build_readiness_report-pass,
}

abbrev good_settings : PgSettings
good_settings = record { log_line_prefix = lit "%m [%p] %l %u@%d %a %h "; log_connections = true }

abbrev user_settings : PgSettings
user_settings = record { log_line_prefix = lit "%t %u "; log_connections = false }

abbrev text_net : Net
text_net = record {
  Ip = Text;
  IpNet = Text;
  parse_ip = λ t. some t;
  parse_cidr = λ t. some t;
  with_mask = λ ip mask. ip;
  net_contains = λ n ip. beq n ip;
  is_subnet = λ t. contains t (lit "/");
}

abbrev no_sources : Sources
no_sources = record {
  read_lines = λ name. none;
  beside = λ hba name. name;
  role_users = none;
  match_rule = λ line. none;
}

user_runs :
    (build_readiness_report (λ n. n ∷ []) user_settings []).runnable_commands
    ≡ inactive_user ∷ password_leak_scanner ∷ []
unfolding build_readiness_report beq
user_runs = refl

parser_gate-init_example :
    (opens (parser_gate user_settings inactive_user)
      ≡ not (is_rejected (inactive_users_init user_settings)))
    × (opens (parser_gate user_settings unique_ips)
        ≡ not (is_rejected (unique_ip_init user_settings)))
    × (opens (parser_gate user_settings hba_unused_lines)
        ≡ not (is_rejected (unused_lines_init text_net no_sources user_settings (lit "hba") none)))
    × (opens (parser_gate user_settings password_leak_scanner)
        ≡ not (is_rejected (password_leak_init user_settings)))
parser_gate-init_example = parser_gate-init text_net no_sources user_settings (lit "hba") none

good_settings-pass : is_pass (build_readiness_report (λ n. n ∷ []) good_settings []).cis_lma ≡ true
unfolding build_readiness_report is_pass
good_settings-pass = refl

build_readiness_report-pass_example :
    ((build_readiness_report (λ n. n ∷ []) good_settings []).runnable_commands
      ≡ default_log_parser_commands)
    × ((build_readiness_report (λ n. n ∷ []) good_settings []).logparser_readiness ≡ true)
build_readiness_report-pass_example =
    build_readiness_report-pass (λ n. n ∷ []) good_settings good_settings-pass
