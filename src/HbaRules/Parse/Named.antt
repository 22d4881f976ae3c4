-- ===== src/HbaRules/Parse/Named.antt =====
-- hba_helpers.go: where the rules of the file stand in the parsed table.
use ciscollector_v.Common.{
  ℕ, ◌≤◌, ◌<◌, ◌≡◌, ◌≢◌, refl, ◌∙◌, inl, inr, false, ◌&&◌, ◌||◌, some, List, [], ◌∷◌, ◌++◌, Text,
  beq, beq_iff, split, In, here, there, In-append_left, In-append_right, In-cons, if◌then◌else◌,
  arith, Bool-cases,
}
use ciscollector_v.Common.Options.{OnSome, OnSome->>=, OnSome->>=_all, OnSome-mono}
use ciscollector_v.Common.Maps.{lookup, insert, lookup-insert, text_eq}
use ciscollector_v.HbaRules.Defs.{
  Net, AddressValidator, HbaFileRule, or_empty, number_of, new_hba_line, new_hba_file_rule, add,
}
use ciscollector_v.HbaRules.Validate.{lines_under}
use ciscollector_v.HbaRules.Parse.{
  HbaFileRules, map_address, address_validator, add_users, add_databases, allocate, parse_rule,
  parse_rules, parse_hba_file_rules,
}

-- `h'` has all that `h` has, and perhaps more.
record Grows (h h' : HbaFileRule) : Type 0 where
  lines : (d u : Text) (p : ℕ) → In p (lines_under h d u) → In p (lines_under h' d u)
  numbers : (p : ℕ) → p < h.next → number_of h' p ≡ number_of h p
  next : h.next ≤ h'.next

Grows-refl : (h : HbaFileRule) → Grows h h
Grows-refl h = record { lines = λ d u p i. i; numbers = λ p l. refl; next = omega arith }

Grows-trans : {a b c : HbaFileRule} → Grows a b → Grows b c → Grows a c
Grows-trans g k = record {
  lines = λ d u p i. k.lines d u p (g.lines d u p i);
  numbers = λ p l. k.numbers p (omega (arith, g.next)) ∙ g.numbers p l;
  next = omega (arith, g.next, k.next);
}

lines_under-add :
    (db user : Text) (line : ℕ) (h : HbaFileRule) (d u : Text)
    → lines_under (add db user line h) d u
      ≡ (if beq db d && beq user u then lines_under h d u ++ line ∷ [] else lines_under h d u)
unfolding add
lines_under-add db user line h d u =
    let users = or_empty (lookup db h.m) in
    let ls = or_empty (lookup user users) ++ line ∷ [] in
    ground (
      arith,
      lookup-insert db d (insert user ls users) h.m,
      lookup-insert user u ls users,
      beq_iff db d,
      beq_iff user u,
    )

add-Grows : (db user : Text) (line : ℕ) (h : HbaFileRule) → Grows h (add db user line h)
add-Grows db user line h = record {
  lines = λ d u p i.
      rw (lines_under-add db user line h d u) (elim (Bool-cases (beq db d && beq user u)) [
        | inl e ↦ rw e (In-append_left _ i)
        | inr e ↦ rw e i
      ]);
  numbers = λ p l. unfold add in refl;
  next = unfold add in omega arith;
}

In-add :
    (db user : Text) (line : ℕ) (h : HbaFileRule)
    → In line (lines_under (add db user line h) db user)
In-add db user line h =
    rw (lines_under-add db user line h db user, (beq_iff db db).1 refl, (beq_iff user user).1 refl)
      (In-append_right _ (here refl))

not_blank : (s : Text) → s ≢ [] → beq s [] ≡ false
not_blank s ne = elim (Bool-cases (beq s [])) [
  | inl e ↦ absurd (ne ((beq_iff s []).0 e))
  | inr e ↦ e
]

module _ (line : ℕ) where
  add_users-Grows :
      (db : Text) (users : List Text) (h : HbaFileRule) → Grows h (add_users db users line h)
  unfolding add_users
  add_users-Grows db [] h = Grows-refl h
  add_users-Grows db (user ∷ users) h = Grows-trans step (add_users-Grows db users _)
    where
      step : Grows h (if beq db [] || beq user [] then h else add db user line h)
      step = elim (Bool-cases (beq db [] || beq user [])) [
        | inl e ↦ rw e (Grows-refl h)
        | inr e ↦ rw e (add-Grows db user line h)
      ]

  add_databases-Grows :
      (dbs users : List Text) (h : HbaFileRule) → Grows h (add_databases dbs users line h)
  unfolding add_databases
  add_databases-Grows [] users h = Grows-refl h
  add_databases-Grows (db ∷ dbs) users h =
      Grows-trans (add_users-Grows db users h) (add_databases-Grows dbs users _)

  In-add_users :
      (db : Text) (users : List Text) (h : HbaFileRule) {user : Text}
      → db ≢ []
      → user ≢ []
      → In user users
      → In line (lines_under (add_users db users line h) db user)
  unfolding add_users
  In-add_users db [] h d u i = elim i [ ]
  In-add_users db (v ∷ users) h d u (there i) = In-add_users db users _ d u i
  In-add_users db (v ∷ users) h {user} d u (here e) =
      (add_users-Grows db users _).lines db user line
        (rw (← e) (rw (not_blank db d, not_blank user u) (In-add db user line h)))

  In-add_databases :
      (dbs users : List Text) (h : HbaFileRule) {db user : Text}
      → db ≢ []
      → user ≢ []
      → In db dbs
      → In user users
      → In line (lines_under (add_databases dbs users line h) db user)
  unfolding add_databases
  In-add_databases [] users h d u i j = elim i [ ]
  In-add_databases (v ∷ dbs) users h d u (there i) j = In-add_databases dbs users _ d u i j
  In-add_databases (v ∷ dbs) users h {db} {user} d u (here e) j =
      (add_databases-Grows dbs users _).lines db user line
        (rw (← e) (In-add_users db users h d u j))

allocate-Grows :
    (n : ℕ) (v : AddressValidator) (raw : Text) (h : HbaFileRule) → Grows h (allocate n v raw h)
unfolding allocate
allocate-Grows n v raw h = record {
  lines = λ d u p i. i;
  numbers = λ p l. ground arith;
  next = omega arith;
}

number_of-allocate :
    (n : ℕ) (v : AddressValidator) (raw : Text) (h : HbaFileRule)
    → number_of (allocate n v raw h) h.next ≡ n
unfolding allocate new_hba_line
number_of-allocate n v raw h = ground arith

-- The rule has a line object of its number under each database and user that it names.
pub record IsNamed (r : HbaFileRules) (h : HbaFileRule) : Type 0 where
  pub named :
      (db user : Text)
      → In db (split b',' r.database)
      → In user (split b',' r.user_name)
      → db ≢ []
      → user ≢ []
      → r.address ≢ []
      → (p : ℕ) × In p (lines_under h db user) × (number_of h p ≡ r.line_number) × (p < h.next)

Grows-IsNamed : (r : HbaFileRules) {h h' : HbaFileRule} → Grows h h' → IsNamed r h → IsNamed r h'
Grows-IsNamed r g k = record {
  named = λ db user i j d u a.
      let (p, member, number, old) = k.named db user i j d u a in
      (p, g.lines db user p member, g.numbers p old ∙ number, omega (arith, g.next));
}

-- what one more rule does to the table
record IsAdded (r : HbaFileRules) (h h' : HbaFileRule) : Type 0 where
  grows : Grows h h'
  named : IsNamed r h'

-- what more rules do to the table
record AreAdded (rs : List HbaFileRules) (h h' : HbaFileRule) : Type 0 where
  grows : Grows h h'
  named : (r : HbaFileRules) → In r rs → IsNamed r h'

IsAdded-lines :
    (r : HbaFileRules) (v : AddressValidator) (h : HbaFileRule)
    → IsAdded r h (
        add_databases
          (split b',' r.database)
          (split b',' r.user_name)
          h.next
          (allocate r.line_number v r.raw h))
IsAdded-lines r v h =
    let dbs = split b',' r.database in
    let users = split b',' r.user_name in
    let first = allocate r.line_number v r.raw h in
    let later = add_databases-Grows h.next dbs users first in
    let fits : h.next < first.next = unfold allocate in omega arith in
    record {
      grows = Grows-trans (allocate-Grows r.line_number v r.raw h) later;
      named = record {
        named = λ db user i j d u a. (
          h.next,
          In-add_databases h.next dbs users first d u i j,
          later.numbers h.next fits ∙ number_of-allocate r.line_number v r.raw h,
          omega (arith, later.next),
        );
      };
    }

module _ (net : Net) where
  parse_rule-IsAdded :
      (r : HbaFileRules) (h : HbaFileRule) → OnSome (IsAdded r h) (parse_rule net r h)
  unfolding parse_rule
  parse_rule-IsAdded r h = elim (Bool-cases (beq r.address [])) [
    | inl e ↦ rw e (record {
      grows = Grows-refl h;
      named = record { named = λ db user i j d u a. absurd (a ((beq_iff r.address []).0 e)) };
    })
    | inr e ↦ rw e (
        OnSome->>=_all (IsAdded r h) (address_validator net (map_address r.address r.net_mask)) _
          λ v. IsAdded-lines r v h)
  ]

  parse_rules-AreAdded :
      (rs : List HbaFileRules) (h : HbaFileRule) → OnSome (AreAdded rs h) (parse_rules net rs h)
  unfolding parse_rules
  parse_rules-AreAdded [] h = record { grows = Grows-refl h; named = λ r i. elim i [ ] }
  parse_rules-AreAdded (r ∷ rs) h =
      OnSome->>= (IsAdded r h) (AreAdded (r ∷ rs) h) (parse_rule net r h) (parse_rules net rs)
        (parse_rule-IsAdded r h)
        λ h' added.
          OnSome-mono (AreAdded rs h') (AreAdded (r ∷ rs) h) (parse_rules net rs h')
            (parse_rules-AreAdded rs h')
            λ h'' more. record {
              grows = Grows-trans added.grows more.grows;
              named = λ r' i. elim (In-cons i) [
                | inl e ↦ rw e (Grows-IsNamed r more.grows added.named)
                | inr j ↦ more.named r' j
              ];
            }

  -- If the rules are parsed, then each one with an address stands in the table: under every
  -- database and every user of its lists that is not blank there is a line of its number.
  pub parse_hba_file_rules-IsNamed :
      (rules : List HbaFileRules) (r : HbaFileRules) {h : HbaFileRule}
      → parse_hba_file_rules net rules ≡ some h
      → In r rules
      → IsNamed r h
  unfolding parse_hba_file_rules
  parse_hba_file_rules-IsNamed rules r {h} e i =
      let all : AreAdded rules new_hba_file_rule h =
        rw e at (parse_rules-AreAdded rules new_hba_file_rule) in
      all.named r i
