-- ===== src/CriticalChecks/Laws.antt =====
-- critical_checks_resolve.go: the checks of a prefix and of pgaudit, and the statuses that come out.
use ciscollector_v.Common.{
  ℕ, ◌≡◌, ◌↔◌, refl, ap, ◌∙◌, inl, inr, Bool, true, false, not, ◌&&◌, ◌||◌, ◌==◌, Option, none,
  some, List, [], ◌∷◌, Text, lit, beq, trim_space, to_lower, equal_fold, fold_case, contains,
  is_nil, length, get_elem?, ltb, ◌≢◌, any, all, map, count, All, if◌then◌else◌, arith, Bool-cases,
  Option-cases,
}
use ciscollector_v.Common.Options.{OnSome}
use ciscollector_v.Common.TextLaws.{trim_space-trim_space, equal_fold_iff}
use ciscollector_v.Common.Maps.{Map, insert, text_eq}
use ciscollector_v.CriticalChecks.Settings.{
  CisResult, SimpleTable, has_character, has_separator, trimmed_guc_name,
  looks_like_postgres_guc_name, setting_of, add_setting, settings_of, indexed_settings, table_of,
  table_settings, guc_values_from_manual_check, find_setting, guc_setting_value,
}
use ciscollector_v.CriticalChecks.Resolve.{
  Resolved, resolve_value, resolve_pgaudit_log, resolve_log_line_prefix, required_tokens,
}
use ciscollector_v.LogParser.Readiness.{Verdict, is_pass, prefix_verdict, evaluate_prefix_cis}

-- The name of a setting in a table has no dot, and its value is trimmed.
abbrev IsSetting : Text × Text → Type 0
IsSetting (k, v) = (has_character b'.' k ≡ false) × (trim_space v ≡ v)

name_no_dot : (k : Text) → trimmed_guc_name k ≡ true → has_character b'.' k ≡ false
unfolding trimmed_guc_name has_separator
name_no_dot k h = ground arith

insert-IsSetting :
    (k v : Text) (m : Map Text Text)
    → IsSetting (k, v)
    → All IsSetting m
    → All IsSetting (insert k v m)
unfolding insert
insert-IsSetting k v [] h hs = (h, tt)
insert-IsSetting k v ((j, w) ∷ m) h hs = elim (Bool-cases (beq j k)) [
  | inl e ↦ rw (e, insert) ((hs.0.0, h.1), hs.1)
  | inr e ↦ rw (e, insert) (hs.0, insert-IsSetting k v m h hs.1)
]

setting_of-IsSetting : (n s : ℕ) (row : List Text) → OnSome IsSetting (setting_of n s row)
unfolding setting_of looks_like_postgres_guc_name
setting_of-IsSetting n s row = elim (Option-cases (get_elem? row n)) [
  | inl e ↦ rw e tt
  | inr (name, e) ↦ elim (Option-cases (get_elem? row s)) [
    | inl f ↦ rw (e, f) tt
    | inr (value, f) ↦ elim (Bool-cases (trimmed_guc_name (trim_space (trim_space name)))) [
      | inr g ↦ rw (e, f, g) tt
      | inl g ↦
          let named = name_no_dot (trim_space name) (rw (trim_space-trim_space name) at g) in
          rw (e, f, g) (named, trim_space-trim_space value)
    ]
  ]
]

add_setting-IsSetting :
    (o : Option (Text × Text)) (m : Map Text Text)
    → OnSome IsSetting o
    → All IsSetting m
    → All IsSetting (add_setting o m)
unfolding add_setting
add_setting-IsSetting none m h hs = hs
add_setting-IsSetting (some (k, v)) m h hs = insert-IsSetting k v m h hs

settings_of-IsSetting :
    (n s : ℕ) (rows : List (List Text)) (m : Map Text Text)
    → All IsSetting m
    → All IsSetting (settings_of n s rows m)
unfolding settings_of
settings_of-IsSetting n s [] m h = h
settings_of-IsSetting n s (row ∷ rows) m h =
    settings_of-IsSetting n s rows (add_setting (setting_of n s row) m)
      (add_setting-IsSetting (setting_of n s row) m (setting_of-IsSetting n s row) h)

indexed_settings-IsSetting :
    (n s : Option ℕ) (rows : List (List Text)) → All IsSetting (indexed_settings n s rows)
unfolding indexed_settings
indexed_settings-IsSetting (some n) (some s) rows = settings_of-IsSetting n s rows [] tt
indexed_settings-IsSetting (some n) none rows = tt
indexed_settings-IsSetting none s rows = tt

table_settings-IsSetting : (t : Option SimpleTable) → All IsSetting (table_settings t)
unfolding table_settings
table_settings-IsSetting none = tt
table_settings-IsSetting (some t) = elim (Bool-cases (ltb (length t.columns) 2 || is_nil t.rows)) [
  | inl e ↦ rw e tt
  | inr e ↦ rw e (indexed_settings-IsSetting _ _ t.rows)
]

guc_values-IsSetting : (r : CisResult) → All IsSetting (guc_values_from_manual_check r)
unfolding guc_values_from_manual_check
guc_values-IsSetting r = table_settings-IsSetting (table_of r.manual_check_data)

has_character-fold_case : (s : Text) → has_character b'.' (map fold_case s) ≡ has_character b'.' s
unfolding has_character any fold_case
has_character-fold_case [] = refl
has_character-fold_case (c ∷ s) = ground (arith, has_character-fold_case s)

log_name_dot : has_character b'.' (map fold_case (lit "pgaudit.log")) ≡ true
unfolding has_character fold_case
log_name_dot = refl

-- A name without a dot is not the name of a setting with one.
equal_fold-dot :
    (name : Text) → has_character b'.' name ≡ false → equal_fold name (lit "pgaudit.log") ≡ false
equal_fold-dot name h = elim (Bool-cases (equal_fold name (lit "pgaudit.log"))) [
  | inr e ↦ e
  | inl e ↦
      let same = (equal_fold_iff name (lit "pgaudit.log")).0 e in
      let dotted : has_character b'.' (map fold_case name) ≡ true = rw same log_name_dot in
      cc (dotted, has_character-fold_case name, h)
]

find_setting-blank : (m : Map Text Text) → All IsSetting m → find_setting (lit "pgaudit.log") m ≡ []
unfolding find_setting
find_setting-blank [] h = refl
find_setting-blank ((k, v) ∷ m) h = rw (equal_fold-dot k h.0.0) (find_setting-blank m h.1)

trim_space_nil : trim_space [] ≡ []
unfolding trim_space
trim_space_nil = refl

find_setting-trimmed :
    (guc : Text) (m : Map Text Text)
    → All IsSetting m
    → trim_space (find_setting guc m) ≡ find_setting guc m
unfolding find_setting
find_setting-trimmed guc [] h = trim_space_nil
find_setting-trimmed guc ((k, v) ∷ m) h = elim (Bool-cases (equal_fold k guc)) [
  | inl e ↦ rw e h.0.1
  | inr e ↦ rw e (find_setting-trimmed guc m h.1)
]

value_passes :
    (named : Bool) (v : Text) (test : Text → Bool)
    → (resolve_value named v test ≡ Resolved.passes) ↔ ((not (beq v []) && test v) ≡ true)
unfolding resolve_value
value_passes named v test = ground arith

blank_value : (named : Bool) (test : Text → Bool) → resolve_value named [] test ≢ Resolved.passes
unfolding resolve_value beq
blank_value true test h = cc
blank_value false test h = cc

-- The check of `pgaudit.log` never passes by the table of a manual check: no name of a setting that
-- is read from a table has a dot.
pub resolve_pgaudit_log-passes : (r : CisResult) → resolve_pgaudit_log r ≢ Resolved.passes
unfolding resolve_pgaudit_log guc_setting_value
resolve_pgaudit_log-passes r h =
    blank_value _
      (λ v. all (λ part. contains (to_lower v) part) (lit "role" ∷ lit "ddl" ∷ lit "write" ∷ []))
      (rw (find_setting-blank (guc_values_from_manual_check r) (guc_values-IsSetting r)) at h)

all-count : (p : Text → Bool) (xs : List Text) → (count (λ x. not (p x)) xs == 0) ≡ all p xs
unfolding count all
all-count p [] = refl
all-count p (x ∷ xs) = ground (arith, all-count p xs)

verdict_lem :
    (b : Bool) (n m : ℕ)
    → is_pass (
        if b
        then Verdict.fail
        else if n == 0
        then Verdict.pass
        else if ltb n m
        then Verdict.partial
        else Verdict.fail)
      ≡ (not b && n == 0)
unfolding is_pass
verdict_lem b n m = ground arith

prefix_agree :
    (named : Bool) (v : Text)
    → trim_space v ≡ v
    → (resolve_value named v (λ u. all (λ tok. contains u tok) required_tokens) ≡ Resolved.passes)
      ↔ (is_pass (evaluate_prefix_cis v) ≡ true)
unfolding evaluate_prefix_cis prefix_verdict
prefix_agree named v h =
    let passed = value_passes named v (λ u. all (λ tok. contains u tok) required_tokens) in
    let counted = all-count (λ tok. contains v tok) required_tokens in
    let verdict : is_pass (prefix_verdict v)
        ≡ (not (beq v []) && all (λ tok. contains v tok) required_tokens) =
      verdict_lem (beq v []) (count (λ tok. not (contains v tok)) required_tokens) 7
      ∙ ap (λ b. not (beq v []) && b) counted in
    rw (h, verdict) passed

-- The critical check of `log_line_prefix` passes by the table of a manual check exactly if the
-- readiness report for the log parser passes the value that the table shows.
pub resolve_log_line_prefix-passes :
    (r : CisResult)
    → (resolve_log_line_prefix r ≡ Resolved.passes)
      ↔ (is_pass (evaluate_prefix_cis (guc_setting_value r (lit "log_line_prefix"))) ≡ true)
unfolding resolve_log_line_prefix guc_setting_value
resolve_log_line_prefix-passes r = prefix_agree _ (guc_setting_value r (lit "log_line_prefix")) (
    find_setting-trimmed (lit "log_line_prefix") (guc_values_from_manual_check r)
      (guc_values-IsSetting r))
