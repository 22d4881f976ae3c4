-- ===== src/HbaRules/Parse.antt =====
-- `ParseHBAFileRules` of hba_helpers.go: from the rules of the file to the table of lines.
pub mod Fresh
pub mod Named
use ciscollector_v.Common.{
  ℕ, ◌+◌, ◌≡◌, refl, ◌⊎◌, inl, inr, Bool, true, false, not, ◌&&◌, ◌||◌, Option, none, some, List,
  [], ◌∷◌, Text, lit, beq, beq_iff, split, any, ◌==◌, if◌then◌else◌, arith, Bool-cases,
}
use ciscollector_v.Common.Options.{◌>>=◌}
use ciscollector_v.Common.Maps.{Map, lookup, insert, text_eq, nat_eq}
use ciscollector_v.HbaRules.Defs.{
  Net, AddressValidator, new_host_address_validator, new_ip_address_validator,
  get_ipnet_from_subnet, get_ipnet_from_ip_and_mask, HbaLine, HbaFileRule, new_hba_line,
  new_hba_file_rule, add, update, all_lines,
}

-- `model.HBAFIleRules`
pub record HbaFileRules : Type 0 where
  pub line_number : ℕ
  pub database : Text
  pub user_name : Text
  pub address : Text
  pub net_mask : Text
  pub raw : Text

abbrev pub address_mapping : Map Text Text
address_mapping = (lit "all", lit "0.0.0.0/0") ∷ (lit "localhost", lit "127.0.0.1/32") ∷ []

-- the address and the mask, behind `addressMapping`
unfoldable pub map_address : Text → Text → Text × Text
unfolding lookup beq
map_address address net_mask = elim (lookup address address_mapping) [
  | none ↦ (address, net_mask)
  | some v ↦ (v, [])
]

-- the inner loop, over the users of one database
unfoldable pub add_users : Text → List Text → ℕ → HbaFileRule → HbaFileRule
unfolding add beq
add_users db [] line h = h
add_users db (user ∷ users) line h =
    add_users db users line (if beq db [] || beq user [] then h else add db user line h)

unfoldable pub add_databases : List Text → List Text → ℕ → HbaFileRule → HbaFileRule
unfolding add_users
add_databases [] users line h = h
add_databases (db ∷ dbs) users line h = add_databases dbs users line (add_users db users line h)

-- `NewHBALine`, which allocates the object, and the entry in `lineMap`
unfoldable pub allocate : ℕ → AddressValidator → Text → HbaFileRule → HbaFileRule
unfolding new_hba_line insert
allocate line_number validator raw h = record h {
  heap = update h.heap h.next (new_hba_line line_number validator);
  next = h.next + 1;
  line_map = insert line_number raw h.line_map;
}

module _ (net : Net) where
  -- the `switch` on the address and the mask
  unfoldable pub address_validator : Text × Text → Option AddressValidator
  unfolding get_ipnet_from_subnet get_ipnet_from_ip_and_mask new_ip_address_validator
      new_host_address_validator beq
  address_validator (address, net_mask) =
      if not (beq net_mask [])
      then (do
        ipnet ← get_ipnet_from_ip_and_mask net address net_mask
        some (new_ip_address_validator net ipnet))
      else if net.is_subnet address
      then (do ipnet ← get_ipnet_from_subnet net address; some (new_ip_address_validator net ipnet))
      else some (new_host_address_validator address)

  -- the body of the loop over the rules; `none` is the returned error
  unfoldable pub parse_rule : HbaFileRules → HbaFileRule → Option HbaFileRule
  unfolding map_address address_validator allocate add_databases split beq
  parse_rule r h = if beq r.address [] then some h else do
    validator ← address_validator (map_address r.address r.net_mask)
    some (
        add_databases (split b',' r.database) (split b',' r.user_name) h.next
          (allocate r.line_number validator r.raw h))

  unfoldable pub parse_rules : List HbaFileRules → HbaFileRule → Option HbaFileRule
  unfolding parse_rule
  parse_rules [] h = some h
  parse_rules (r ∷ rs) h = do h' ← parse_rule r h; parse_rules rs h'

  -- `ParseHBAFileRules`
  unfoldable pub parse_hba_file_rules : List HbaFileRules → Option HbaFileRule
  unfolding parse_rules new_hba_file_rule
  parse_hba_file_rules rules = parse_rules rules new_hba_file_rule
