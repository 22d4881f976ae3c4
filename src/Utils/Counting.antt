-- ===== src/Utils/Counting.antt =====
-- What the containers hold after any number of writes.
use ciscollector_v.Common.{
  ℕ, ◌+◌, ◌≡◌, refl, ap, inl, inr, true, not, ◌&&◌, ◌||◌, List, [], ◌∷◌, Text, beq, beq_iff, any,
  count, if◌then◌else◌, arith, Bool-cases,
}
use ciscollector_v.Common.Maps.{Eq, Map, lookup, lookup-insert, text_eq}
use ciscollector_v.Utils.Containers.{
  get_value, or_zero, increment, LockSet, add_key, is_available, new_set_from_slice, set_add,
  set_contains,
}

unfoldable pub increment_all : List Text → Map Text ℕ → Map Text ℕ
increment_all [] m = m
increment_all (k ∷ ks) m = increment_all ks (increment k m)

increment-get_value :
    (k j : Text) (m : Map Text ℕ)
    → or_zero (get_value j (increment k m))
      ≡ (if beq k j && not (beq k []) then 1 else 0) + or_zero (get_value j m)
unfolding increment
increment-get_value k j m = elim (Bool-cases (beq k j)) [
  | inl e ↦
      let same = ap (λ i. or_zero (lookup i m)) ((beq_iff k j).0 e) in
      ground (arith, lookup-insert k j (or_zero (lookup k m) + 1) m, same)
  | inr e ↦ ground (arith, lookup-insert k j (or_zero (lookup k m) + 1) m)
]

-- A counter holds for each key that is not empty the number of its increments, and the empty
-- key is never counted.
pub increment_all-count :
    (ks : List Text) (m : Map Text ℕ) (j : Text)
    → or_zero (get_value j (increment_all ks m))
      ≡ count (λ k. beq k j && not (beq k [])) ks + or_zero (get_value j m)
unfolding increment_all count
increment_all-count [] m j = omega arith
increment_all-count (k ∷ ks) m j =
    omega (arith, increment_all-count ks (increment k m) j, increment-get_value k j m)

pub is_available-add_key :
    (k j : Text) (m : LockSet)
    → is_available j (add_key k m) ≡ ((beq k j && not (beq k [])) || is_available j m)
unfolding add_key is_available
is_available-add_key k j m = ground (arith, lookup-insert k j true m)

-- The set of a slice contains exactly the items of the slice and what was there.
pub set_contains-new_set_from_slice :
    {T : Type 0} ⦃e : Eq T⦄ (items : List T) (s : Map T (Unit {0})) (j : T)
    → set_contains j (new_set_from_slice items s) ≡ (any (λ i. e.eqb i j) items || set_contains j s)
unfolding set_contains new_set_from_slice any
set_contains-new_set_from_slice [] s j = refl
set_contains-new_set_from_slice ⦃e⦄ (i ∷ items) s j =
    ground (arith, set_contains-new_set_from_slice items (set_add i s) j, lookup-insert i j tt s)
