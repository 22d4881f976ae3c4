-- ===== src/HbaRules/Parse/Fresh.antt =====
-- hba_helpers.go: the report of unused lines on a table that was just parsed.
use ciscollector_v.Common.{
  ℕ, ◌≡◌, refl, inl, inr, false, ◌||◌, some, List, [], ◌∷◌, Text, beq, split, any, arith,
  Bool-cases,
}
use ciscollector_v.Common.Options.{OnSome, OnSome->>=, OnSome->>=_all}
use ciscollector_v.HbaRules.Defs.{Net, AddressValidator, HbaFileRule, new_hba_file_rule, all_lines}
use ciscollector_v.HbaRules.Unused.{holds, report, has_number, was_used, holds-report}
use ciscollector_v.HbaRules.Parse.{
  HbaFileRules, map_address, address_validator, add_users, add_databases, allocate, parse_rule,
  parse_rules, parse_hba_file_rules,
}

-- No line object was used yet.
record IsFresh (h : HbaFileRule) : Type 0 where
  counts : (p : ℕ) → (h.heap p).matching_entry_count ≡ 0

add_users-IsFresh :
    (db : Text) (users : List Text) (line : ℕ) (h : HbaFileRule)
    → IsFresh h
    → IsFresh (add_users db users line h)
unfolding add_users
add_users-IsFresh db [] line h a = a
add_users-IsFresh db (user ∷ users) line h a =
    add_users-IsFresh db users line _ (elim (Bool-cases (beq db [] || beq user [])) [
      | inl e ↦ rw e a
      | inr e ↦ rw e (record { counts = a.counts })
    ])

add_databases-IsFresh :
    (dbs users : List Text) (line : ℕ) (h : HbaFileRule)
    → IsFresh h
    → IsFresh (add_databases dbs users line h)
unfolding add_databases
add_databases-IsFresh [] users line h a = a
add_databases-IsFresh (db ∷ dbs) users line h a =
    add_databases-IsFresh dbs users line _ (add_users-IsFresh db users line h a)

allocate-IsFresh :
    (n : ℕ) (v : AddressValidator) (raw : Text) (h : HbaFileRule)
    → IsFresh h
    → IsFresh (allocate n v raw h)
unfolding allocate
allocate-IsFresh n v raw h a = record { counts = λ p. ground (arith, a.counts p) }

module _ (net : Net) where
  parse_rule-IsFresh :
      (r : HbaFileRules) (h : HbaFileRule) → IsFresh h → OnSome IsFresh (parse_rule net r h)
  unfolding parse_rule
  parse_rule-IsFresh r h a = elim (Bool-cases (beq r.address [])) [
    | inl e ↦ rw e a
    | inr e ↦ rw e (
        OnSome->>=_all IsFresh (address_validator net (map_address r.address r.net_mask)) _ λ v.
          add_databases-IsFresh (split b',' r.database) (split b',' r.user_name) h.next _
            (allocate-IsFresh r.line_number v r.raw h a))
  ]

  parse_rules-IsFresh :
      (rs : List HbaFileRules) (h : HbaFileRule) → IsFresh h → OnSome IsFresh (parse_rules net rs h)
  unfolding parse_rules
  parse_rules-IsFresh [] h a = a
  parse_rules-IsFresh (r ∷ rs) h a =
      OnSome->>= IsFresh IsFresh (parse_rule net r h) (parse_rules net rs)
        (parse_rule-IsFresh r h a) (parse_rules-IsFresh rs)

  was_used-IsFresh : (h : HbaFileRule) (n : ℕ) (ps : List ℕ) → IsFresh h → was_used h n ps ≡ false
  unfolding any
  was_used-IsFresh h n [] a = refl
  was_used-IsFresh h n (p ∷ ps) a = ground (arith, a.counts p, was_used-IsFresh h n ps a)

  -- Of a table that was just parsed every line that stands in it is reported as unused.
  pub parse_hba_file_rules-unused :
      (rules : List HbaFileRules) {h : HbaFileRule}
      → parse_hba_file_rules net rules ≡ some h
      → (n : ℕ) → holds n (report h) ≡ has_number h n (all_lines h.m)
  unfolding parse_hba_file_rules
  parse_hba_file_rules-unused rules {h} e n =
      let fresh : IsFresh new_hba_file_rule =
        unfold new_hba_file_rule in record { counts = λ p. refl } in
      let a : IsFresh h = rw e at (parse_rules-IsFresh rules new_hba_file_rule fresh) in
      rw holds-report (ground (arith, was_used-IsFresh h n (all_lines h.m) a))
