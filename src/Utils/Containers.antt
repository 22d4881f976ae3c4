-- ===== src/Utils/Containers.antt =====
-- `StringSlice`, `LockedKeyValue`, `LockedCounter`, `LockSet` and `Set`.
use ciscollector_v.Common.{
  ℕ, ◌+◌, Bool, true, false, Option, none, some, List, [], ◌∷◌, ◌++◌, Text, beq, get_elem?,
  if◌then◌else◌,
}
use ciscollector_v.Common.Maps.{Eq, Map, lookup, insert, remove, text_eq}

-- `StringSlice.Get`
unfoldable pub get : List Text → ℕ → Text
get s ind = elim (get_elem? s ind) [ none ↦ [] | some t ↦ t ]

-- `StringSlice.Set`
unfoldable pub set_value : List Text → Text → List Text
set_value s value = s ++ value ∷ []

module _ {T : Type 0} where
  -- `LockedKeyValue.Add`
  unfoldable pub add : Text → T → Map Text T → Map Text T
  unfolding insert beq
  add key value m = if beq key [] then m else insert key value m

  -- `LockedKeyValue.Get`; the `bool` is the constructor
  unfoldable pub get_value : Text → Map Text T → Option T
  unfolding lookup beq
  get_value key m = lookup key m

  -- `LockedKeyValue.Remove`
  unfoldable pub remove_key : Text → Map Text T → Map Text T
  unfolding remove beq
  remove_key key m = remove key m

abbrev pub or_zero : Option ℕ → ℕ
or_zero none = 0
or_zero (some n) = n

-- `LockedCounter.Increment`
unfoldable pub increment : Text → Map Text ℕ → Map Text ℕ
unfolding get_value add
increment key m = if beq key [] then m else add key (or_zero (get_value key m) + 1) m

abbrev pub LockSet : Type 0
LockSet = Map Text Bool

-- `LockSet.Add`
unfoldable pub add_key : Text → LockSet → LockSet
unfolding add
add_key key m = if beq key [] then m else add key true m

-- `LockSet.IsAvailable`
unfoldable pub is_available : Text → LockSet → Bool
unfolding get_value
is_available key m = elim (get_value key m) [ none ↦ false | some val ↦ val ]

-- `set[T]`: a map to the empty struct
module _ {T : Type 0} ⦃e : Eq T⦄ where
  unfoldable pub set_add : T → Map T (Unit {0}) → Map T (Unit {0})
  unfolding insert
  set_add item s = insert item tt s

  unfoldable pub set_remove : T → Map T (Unit {0}) → Map T (Unit {0})
  unfolding remove
  set_remove item s = remove item s

  unfoldable pub set_contains : T → Map T (Unit {0}) → Bool
  unfolding lookup
  set_contains item s = elim (lookup item s) [ none ↦ false | some _ ↦ true ]

  -- `NewSetFromSlice`
  unfoldable pub new_set_from_slice : List T → Map T (Unit {0}) → Map T (Unit {0})
  unfolding set_add
  new_set_from_slice [] s = s
  new_set_from_slice (item ∷ items) s = new_set_from_slice items (set_add item s)
