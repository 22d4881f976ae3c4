-- ===== src/HbaRules/Tests.antt =====
-- A table of two rules, with a `net` of which an address is its own text.
use ciscollector_v.Common.{
  ℕ, ◌≡◌, refl, ◌⊎◌, false, not, ◌&&◌, ◌||◌, none, some, List, [], ◌∷◌, Text, lit, beq, contains,
  here, there, ◌++◌, ◌↔◌, In, map, has_prefix, if◌then◌else◌,
}
use ciscollector_v.Common.Maps.{text_eq, nat_eq}
use ciscollector_v.Common.Sorting.{Increasing}
use ciscollector_v.HbaRules.Defs.{
  Net, HbaFileRule, mark, accepts, validate_entry, all_lines, new_hba_file_rule,
}
use ciscollector_v.HbaRules.Validate.{Covers, IsFirst, validate_entry-IsFirst}
use ciscollector_v.HbaRules.Unused.{has_number, was_used, holds, report, get_unused_lines-unused}
use ciscollector_v.HbaRules.Parse.{HbaFileRules, parse_hba_file_rules}
use ciscollector_v.HbaRules.Files.{Sources, scan_hba_file}
use ciscollector_v.HbaRules.Scanned.{Holds, scan_hba_file-rules}
use ciscollector_v.HbaRules.Parse.Named.{IsNamed, parse_hba_file_rules-IsNamed}

abbrev text_net : Net
text_net = record {
  Ip = Text;
  IpNet = Text;
  parse_ip = λ t. some t;
  parse_cidr = λ t. some t;
  with_mask = λ ip mask. ip;
  net_contains = λ n ip. beq n ip || beq n (lit "0.0.0.0/0");
  is_subnet = λ t. contains t (lit "/");
}

abbrev rule_at : ℕ → Text → HbaFileRules
rule_at n address = record {
  line_number = n;
  database = lit "shop";
  user_name = lit "app,all";
  address = address;
  net_mask = [];
  raw = lit "host shop app,all";
}

abbrev two_rules : List HbaFileRules
two_rules = rule_at 3 (lit "db.local") ∷ rule_at 7 (lit "all") ∷ []

-- the table of the two rules
abbrev two_lines : HbaFileRule
two_lines = elim (parse_hba_file_rules text_net two_rules) [ none ↦ new_hba_file_rule | some h ↦ h ]

two_lines-eq : parse_hba_file_rules text_net two_rules ≡ some two_lines
unfolding parse_hba_file_rules contains
two_lines-eq = refl

validate_entry-IsFirst_example :
    ((p : ℕ) × (validate_entry (lit "shop") (lit "app") (lit "10.0.0.1") two_lines
        ≡ mark two_lines p)
      × IsFirst (lit "shop") (lit "app") (lit "10.0.0.1") two_lines p)
    ⊎ ((validate_entry (lit "shop") (lit "app") (lit "10.0.0.1") two_lines ≡ two_lines)
        × ((q : ℕ)
            → Covers two_lines (lit "shop") (lit "app") q
            → accepts two_lines (lit "10.0.0.1") q ≡ false))
validate_entry-IsFirst_example =
    validate_entry-IsFirst (lit "shop") (lit "app") (lit "10.0.0.1") two_lines

get_unused_lines-unused_example :
    Increasing (report two_lines)
    × ((n : ℕ)
        → holds n (report two_lines) ≡ (
            has_number two_lines n (all_lines two_lines.m)
            && not (was_used two_lines n (all_lines two_lines.m))))
get_unused_lines-unused_example = get_unused_lines-unused two_lines

parse_hba_file_rules-IsNamed_example : IsNamed (rule_at 7 (lit "all")) two_lines
parse_hba_file_rules-IsNamed_example =
    parse_hba_file_rules-IsNamed text_net two_rules (rule_at 7 (lit "all")) {h = two_lines}
      two_lines-eq (there (here refl))

abbrev file_lines : List Text
file_lines = lit "# all hosts" ∷ [] ∷ lit " host shop @staff 10.0.0.1/32 md5 " ∷ lit "hostile" ∷ []

abbrev file_sources : Sources
file_sources = record {
  read_lines = λ name.
      if beq name (lit "etc/staff")
      then some (lit " app" ∷ [] ∷ lit "ops " ∷ [])
      else some file_lines;
  beside = λ hba name. lit "etc/" ++ name;
  role_users = none;
  match_rule = λ line.
      if has_prefix line (lit "host ")
      then some
          (line ∷ lit "host" ∷ lit "shop" ∷ lit "@staff" ∷ lit "10.0.0.1/32" ∷ [] ∷ lit "md5" ∷ [])
      else none;
}

scanned_runs :
    scan_hba_file file_sources (lit "etc/pg_hba.conf")
    ≡ some (
        record {
          line_number = 3;
          database = lit "shop";
          user_name = lit "app,ops";
          address = lit "10.0.0.1/32";
          net_mask = [];
          raw = lit "host shop @staff 10.0.0.1/32 md5";
        }
        ∷ [])
unfolding scan_hba_file beq has_prefix
scanned_runs = refl

file_lines-eq : file_sources.read_lines (lit "etc/pg_hba.conf") ≡ some file_lines
unfolding beq
file_lines-eq = refl

scan_hba_file-rules_example :
    (rules : List HbaFileRules) × (scan_hba_file file_sources (lit "etc/pg_hba.conf") ≡ some rules)
    × Increasing (map (λ (r : HbaFileRules). r.line_number) rules)
    × ((r : HbaFileRules)
        → In r rules ↔ ((i : ℕ) × Holds file_sources (lit "etc/pg_hba.conf") file_lines i r))
scan_hba_file-rules_example =
    scan_hba_file-rules file_sources (lit "etc/pg_hba.conf") file_lines file_lines-eq
