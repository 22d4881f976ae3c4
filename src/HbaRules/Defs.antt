-- ===== src/HbaRules/Defs.antt =====
-- address_validator.go, hba_file_rule.go and `ParseHBAFileRules` of hba_helpers.go.
use ciscollector_v.Common.{
  ℕ, ◌+◌, Bool, false, not, ◌||◌, Option, none, some, List, [], ◌∷◌, ◌++◌, Text, lit, beq, contains,
  ◌==◌, if◌then◌else◌,
}
use ciscollector_v.Common.Options.{◌>>=◌}
use ciscollector_v.Common.Maps.{Map, lookup, insert, nat_eq, text_eq}
use ciscollector_v.Common.Sorting.{find, sort_by}

-- What the code takes from `net`, and the regular expression of an address with a prefix length.
pub record Net : Type 1 where
  pub Ip : Type 0
  pub IpNet : Type 0
  pub parse_ip : Text → Option Ip
  pub parse_cidr : Text → Option IpNet
  pub with_mask : Ip → Ip → IpNet
  pub net_contains : IpNet → Ip → Bool
  pub is_subnet : Text → Bool

-- The interface `AddressValidator`, by its one method `IsValid`.
abbrev pub AddressValidator : Type 0
AddressValidator = Text → Bool

unfoldable pub new_host_address_validator : Text → AddressValidator
unfolding contains
new_host_address_validator host address = contains address host

module _ (net : Net) where
  open net use {IpNet, parse_ip, parse_cidr, with_mask, net_contains}

  unfoldable pub new_ip_address_validator : IpNet → AddressValidator
  new_ip_address_validator ipnet address = elim (parse_ip address) [
    | none ↦ false
    | some ip ↦ net_contains ipnet ip
  ]

  unfoldable pub get_ipnet_from_subnet : Text → Option IpNet
  get_ipnet_from_subnet subnet = parse_cidr subnet

  unfoldable pub get_ipnet_from_ip_and_mask : Text → Text → Option IpNet
  get_ipnet_from_ip_and_mask ip mask = do
    ip_addr ← parse_ip ip
    mask_addr ← parse_ip mask
    some (with_mask ip_addr mask_addr)

pub record HbaLine : Type 0 where
  pub line_number : ℕ
  pub address_parser : AddressValidator
  pub matching_entry_count : ℕ

pub record HbaRawLine : Type 0 where
  pub line_no : ℕ
  pub line : Text

-- `hbaFileRule`: database to user to lines, the text of each line, and the line objects by number;
-- `next` is the number of the next object.
pub record HbaFileRule : Type 0 where
  pub m : Map Text (Map Text (List ℕ))
  pub line_map : Map ℕ Text
  pub heap : ℕ → HbaLine
  pub next : ℕ

abbrev pub or_empty {ℓ} : {A : Type ℓ} → Option (List A) → List A
or_empty none = []
or_empty (some xs) = xs

unfoldable pub new_hba_line : ℕ → AddressValidator → HbaLine
new_hba_line line_number address_parser = record {
  line_number = line_number;
  address_parser = address_parser;
  matching_entry_count = 0;
}

unfoldable pub new_hba_file_rule : HbaFileRule
unfolding new_hba_line
new_hba_file_rule = record {
  m = [];
  line_map = [];
  heap = λ _. new_hba_line 0 (λ _. false);
  next = 0;
}

-- `Add`
unfoldable pub add : Text → Text → ℕ → HbaFileRule → HbaFileRule
unfolding lookup insert beq
add database username line r =
    let users = or_empty (lookup database r.m) in
    let lines = or_empty (lookup username users) in
    record r { m = insert database (insert username (lines ++ line ∷ []) users) r.m }

-- the lines of a database for a user and for `all`, if the database has an entry
unfoldable pub lines_of : HbaFileRule → Text → Text → List ℕ
unfolding lookup beq
lines_of r database username = elim (lookup database r.m) [
  | none ↦ []
  | some users ↦ or_empty (lookup username users) ++ or_empty (lookup (lit "all") users)
]

-- the `lines` of `ValidateEntry`, before they are sorted
unfoldable pub candidates : HbaFileRule → Text → Text → List ℕ
unfolding lines_of
candidates r database username =
    lines_of r database username
    ++ ((if beq database username then lines_of r (lit "sameuser") username else [])
        ++ ((if beq database username then lines_of r (lit "samerole") username else [])
            ++ lines_of r (lit "all") username))

-- `FoundMatchingEntry`
unfoldable pub found_matching_entry : HbaLine → HbaLine
found_matching_entry l = record l { matching_entry_count = l.matching_entry_count + 1 }

abbrev pub update : (ℕ → HbaLine) → ℕ → HbaLine → ℕ → HbaLine
update heap p l q = if q == p then l else heap q

abbrev pub accepts : HbaFileRule → Text → ℕ → Bool
accepts r address p = (r.heap p).address_parser address

abbrev pub number_of : HbaFileRule → ℕ → ℕ
number_of r p = (r.heap p).line_number

abbrev pub mark : HbaFileRule → ℕ → HbaFileRule
mark r p = record r { heap = update r.heap p (found_matching_entry (r.heap p)) }

-- `ValidateEntry`
unfoldable pub validate_entry : Text → Text → Text → HbaFileRule → HbaFileRule
unfolding candidates sort_by find found_matching_entry
validate_entry database username address r =
    elim (find (accepts r address) (sort_by (number_of r) (candidates r database username))) [
      | none ↦ r
      | some p ↦ mark r p
    ]

-- the line objects that `GetUnusedLines` visits
unfoldable pub lines_of_users : Map Text (List ℕ) → List ℕ
lines_of_users [] = []
lines_of_users ((user, lines) ∷ users) = lines ++ lines_of_users users

unfoldable pub all_lines : Map Text (Map Text (List ℕ)) → List ℕ
unfolding lines_of_users
all_lines [] = []
all_lines ((database, users) ∷ m) = lines_of_users users ++ all_lines m

abbrev pub or_false : Option Bool → Bool
or_false none = false
or_false (some b) = b

-- `unusedLineMap`, which says of a line number whether a line object with it was used
unfoldable pub used_map : HbaFileRule → List ℕ → Map ℕ Bool → Map ℕ Bool
unfolding lookup insert
used_map r [] seen = seen
used_map r (p ∷ ps) seen =
    let l = r.heap p in
    let used = or_false (lookup l.line_number seen) || not (l.matching_entry_count == 0) in
    used_map r ps (insert l.line_number used seen)

unfoldable pub unused_numbers : Map ℕ Bool → List ℕ
unused_numbers [] = []
unused_numbers ((k, used) ∷ seen) =
    let rest = unused_numbers seen in if used then rest else k ∷ rest

abbrev pub or_blank : Option Text → Text
or_blank none = []
or_blank (some t) = t

unfoldable pub raw_lines : Map ℕ Text → List ℕ → List HbaRawLine
unfolding lookup
raw_lines line_map [] = []
raw_lines line_map (n ∷ ns) =
    record { line_no = n; line = or_blank (lookup n line_map) } ∷ raw_lines line_map ns

-- the sorted keys of `unusedLineMap` that are not used
unfoldable pub unused_line_nos : HbaFileRule → List ℕ
unfolding sort_by unused_numbers used_map all_lines
unused_line_nos r = sort_by (λ n. n) (unused_numbers (used_map r (all_lines r.m) []))

-- `GetUnusedLines`
unfoldable pub get_unused_lines : HbaFileRule → List HbaRawLine
unfolding raw_lines unused_line_nos
get_unused_lines r = raw_lines r.line_map (unused_line_nos r)
