-- ===== src/ConfigDrift/Servers.antt =====
-- compareconfig.go: `CompareAllServersWithBase`, the comparison of servers with the first of them.
use ciscollector_v.Common.{
  ◌≡◌, refl, sym, ap, ◌∙◌, inl, inr, Bool, true, false, not, ◌&&◌, ◌||◌, Option, none, some, List,
  [], ◌∷◌, ◌++◌, Text, beq, map, is_nil, all, any, keep, if◌then◌else◌, arith, Bool-cases,
}
use mathlib.Core.List.{append_assoc, append-nil}
use ciscollector_v.Common.Maps.{Map, lookup, insert, lookup-insert, text_eq}
use ciscollector_v.ConfigDrift.Baseline.{or_blank}

-- `ConfigSetting`
pub record ConfigSetting : Type 0 where
  pub name : Text
  pub values : Map Text Text

-- `AllConfigValues`
pub record AllConfigValues : Type 0 where
  pub all_settings : List ConfigSetting
  pub all_unique_fields : List Text

-- `ConfigCompareOne2OneResult`
pub record ConfigCompareOne2OneResult : Type 0 where
  pub base_server : Text
  pub not_matching : Map Text (Map Text (List Text))
  pub matching : List Text

-- `settings.Values[field]`
unfoldable pub value_of : ConfigSetting → Text → Text
unfolding lookup beq
value_of s field = or_blank (lookup field s.values)

-- the loop over the fields
unfoldable pub differences :
    ConfigSetting → ConfigSetting → List Text → Map Text (List Text) → Map Text (List Text)
unfolding value_of beq insert
differences base other [] m = m
differences base other (field ∷ fields) m =
    let a = value_of base field in
    let b = value_of other field in
    differences base other fields (if beq a b then m else insert field (a ∷ b ∷ []) m)

-- one pass of the loop over the servers
unfoldable pub compare_server :
    List Text
    → ConfigSetting
    → ConfigSetting
    → ConfigCompareOne2OneResult
    → ConfigCompareOne2OneResult
unfolding differences insert beq
compare_server fields base other r =
    let m = differences base other fields [] in
    if is_nil m
    then record r { matching = r.matching ++ other.name ∷ [] }
    else record r { not_matching = insert other.name m r.not_matching }

unfoldable pub compare_servers :
    List Text
    → ConfigSetting
    → List ConfigSetting
    → ConfigCompareOne2OneResult
    → ConfigCompareOne2OneResult
unfolding compare_server
compare_servers fields base [] r = r
compare_servers fields base (other ∷ others) r =
    compare_servers fields base others (compare_server fields base other r)

-- `CompareAllServersWithBase`
unfoldable pub compare_all_servers_with_base : AllConfigValues → Option ConfigCompareOne2OneResult
unfolding compare_servers
compare_all_servers_with_base v = elim v.all_settings [
  | [] ↦ none
  | base ∷ others ↦
      if is_nil others
      then none
      else some (
          compare_servers v.all_unique_fields base others
            (record { base_server = base.name; not_matching = []; matching = [] }))
]

-- The two servers have the same value for each of the fields.
unfoldable pub same_values : List Text → ConfigSetting → ConfigSetting → Bool
unfolding all beq value_of
same_values fields base other = all (λ f. beq (value_of base f) (value_of other f)) fields

is_nil-insert : {V : Type 0} (k : Text) (v : V) (m : Map Text V) → is_nil (insert k v m) ≡ false
unfolding insert
is_nil-insert k v [] = refl
is_nil-insert k v ((j, w) ∷ m) = elim (Bool-cases (beq j k)) [
  | inl e ↦ rw (e, insert) refl
  | inr e ↦ rw (e, insert) refl
]

is_nil-differences :
    (base other : ConfigSetting) (fields : List Text) (m : Map Text (List Text))
    → is_nil (differences base other fields m) ≡ (is_nil m && same_values fields base other)
unfolding differences same_values all
is_nil-differences base other [] m = ground arith
is_nil-differences base other (f ∷ fields) m =
    elim (Bool-cases (beq (value_of base f) (value_of other f))) [
      | inl e ↦ rw e (is_nil-differences base other fields m)
      | inr e ↦
          let pair = value_of base f ∷ value_of other f ∷ [] in
          rw e (
            is_nil-differences base other fields (insert f pair m)
            ∙ ground (arith, is_nil-insert f pair m))
    ]

abbrev pub is_some : {A : Type 0} → Option A → Bool
is_some none = false
is_some (some a) = true

module _ (fields : List Text) (base : ConfigSetting) where
  test-compare_server :
      (s : ConfigSetting) → is_nil (differences base s fields []) ≡ same_values fields base s
  test-compare_server s = is_nil-differences base s fields []

  compare_server-same :
      (s : ConfigSetting) (r : ConfigCompareOne2OneResult)
      → same_values fields base s ≡ true
      → compare_server fields base s r ≡ record r { matching = r.matching ++ s.name ∷ [] }
  unfolding compare_server
  compare_server-same s r e = rw (test-compare_server s ∙ e) refl

  compare_server-differs :
      (s : ConfigSetting) (r : ConfigCompareOne2OneResult)
      → same_values fields base s ≡ false
      → compare_server fields base s r
        ≡ record r { not_matching = insert s.name (differences base s fields []) r.not_matching }
  unfolding compare_server
  compare_server-differs s r e = rw (test-compare_server s ∙ e) refl

  step-same :
      (s : ConfigSetting) (others : List ConfigSetting) (r : ConfigCompareOne2OneResult)
      → same_values fields base s ≡ true
      → compare_servers fields base (s ∷ others) r
        ≡ compare_servers fields base others (record r { matching = r.matching ++ s.name ∷ [] })
  unfolding compare_servers
  step-same s others r e = ap (compare_servers fields base others) (compare_server-same s r e)

  step-differs :
      (s : ConfigSetting) (others : List ConfigSetting) (r : ConfigCompareOne2OneResult)
      → same_values fields base s ≡ false
      → compare_servers fields base (s ∷ others) r
        ≡ compare_servers fields base others (record r {
          not_matching = insert s.name (differences base s fields []) r.not_matching;
        })
  unfolding compare_servers
  step-differs s others r e = ap (compare_servers fields base others) (compare_server-differs s r e)

  base-compare_servers :
      (others : List ConfigSetting) (r : ConfigCompareOne2OneResult)
      → (compare_servers fields base others r).base_server ≡ r.base_server
  unfolding compare_servers
  base-compare_servers [] r = refl
  base-compare_servers (s ∷ others) r = elim (Bool-cases (same_values fields base s)) [
    | inl e ↦
        ap (λ c. c.base_server) (step-same s others r e)
        ∙ base-compare_servers others (record r { matching = r.matching ++ s.name ∷ [] })
    | inr e ↦
        ap (λ c. c.base_server) (step-differs s others r e)
        ∙ base-compare_servers others (record r {
          not_matching = insert s.name (differences base s fields []) r.not_matching;
        })
  ]

  matching-compare_servers :
      (others : List ConfigSetting) (r : ConfigCompareOne2OneResult)
      → (compare_servers fields base others r).matching
        ≡ r.matching ++ map (λ s. s.name) (keep (same_values fields base) others)
  unfolding keep compare_servers
  matching-compare_servers [] r = sym (append-nil r.matching)
  matching-compare_servers (s ∷ others) r = elim (Bool-cases (same_values fields base s)) [
    | inl e ↦
        rw (step-same s others r e, e)
          (matching-compare_servers others (record r { matching = r.matching ++ s.name ∷ [] })
            ∙ append_assoc r.matching (s.name ∷ []) _)
    | inr e ↦
        let m = insert s.name (differences base s fields []) r.not_matching in
        rw (step-differs s others r e, e)
          (matching-compare_servers others (record r { not_matching = m }))
  ]

  -- some server of this name has another value
  abbrev pub differs_under : Text → List ConfigSetting → Bool
  differs_under name others = any (λ s. beq s.name name && not (same_values fields base s)) others

  lookup-compare_servers :
      (others : List ConfigSetting) (r : ConfigCompareOne2OneResult) (name : Text)
      → is_some (lookup name (compare_servers fields base others r).not_matching)
        ≡ (is_some (lookup name r.not_matching) || differs_under name others)
  unfolding compare_servers any
  lookup-compare_servers [] r name = ground arith
  lookup-compare_servers (s ∷ others) r name = elim (Bool-cases (same_values fields base s)) [
    | inl e ↦
        rw (step-same s others r e, e)
          (lookup-compare_servers others (record r { matching = r.matching ++ s.name ∷ [] }) name
            ∙ ground arith)
    | inr e ↦
        let m = insert s.name (differences base s fields []) r.not_matching in
        rw (step-differs s others r e, e)
          (lookup-compare_servers others (record r { not_matching = m }) name
            ∙ ground
                (arith, lookup-insert s.name name (differences base s fields []) r.not_matching))
  ]

-- If there are at least two servers, there is a result, and its base is the first. The matching
-- ones are, in order, those of the others that have the base's value for every field; and the
-- differences have an entry for a name exactly if some other server of that name does not.
pub compare_all_servers_with_base-split :
    (fields : List Text) (base first : ConfigSetting) (others : List ConfigSetting)
    → (r : ConfigCompareOne2OneResult) × (compare_all_servers_with_base
          (record { all_settings = base ∷ first ∷ others; all_unique_fields = fields })
        ≡ some r)
      × (r.base_server ≡ base.name)
      × (r.matching ≡ map (λ s. s.name) (keep (same_values fields base) (first ∷ others)))
      × ((name : Text)
          → is_some (lookup name r.not_matching) ≡ differs_under fields base name (first ∷ others))
unfolding compare_all_servers_with_base
compare_all_servers_with_base-split fields base first others =
    let start : ConfigCompareOne2OneResult = record {
      base_server = base.name;
      not_matching = [];
      matching = [];
    } in
    (
      compare_servers fields base (first ∷ others) start,
      refl,
      base-compare_servers fields base (first ∷ others) start,
      matching-compare_servers fields base (first ∷ others) start,
      lookup-compare_servers fields base (first ∷ others) start,
    )
