-- ===== src/Common/TextLaws.antt =====
-- Laws of the text functions: trimming, case, splitting and searching.
use Prim.Native.Nat.{ℕ}
use mathlib.Core.Path.{◌≡◌, refl, sym, ap, ◌∙◌}
use mathlib.Core.Bool.{true}
use mathlib.Core.List.{List, [], ◌∷◌, ◌++◌, map}
use mathlib.Core.Logic.{◌↔◌, ◌≢◌, inl, inr}
use native.Mathlib.Omega.{arith}
use ciscollector_v.Common.Tests.{Bool-cases}
use ciscollector_v.Common.Lists.{is_nil, All, In, here, there}
use ciscollector_v.Common.Texts.{
  Text, beq, beq_iff, is_space, trim_left, trim_right, trim_space, lower, to_lower, fold_case,
  equal_fold, contains_text, contains, has_prefix, split,
}

pub is_space-lower : (c : ℕ) → is_space (lower c) ≡ is_space c
unfolding is_space lower
is_space-lower c = ground arith

pub lower-lower : (c : ℕ) → lower (lower c) ≡ lower c
unfolding lower
lower-lower c = ground arith

pub to_lower-to_lower : (s : Text) → to_lower (to_lower s) ≡ to_lower s
to_lower-to_lower [] = refl
to_lower-to_lower (c ∷ s) = cc (lower-lower c, to_lower-to_lower s)

trim_left-to_lower : (s : Text) → trim_left (to_lower s) ≡ to_lower (trim_left s)
unfolding trim_left
trim_left-to_lower [] = refl
trim_left-to_lower (c ∷ s) = ground (arith, is_space-lower c, trim_left-to_lower s)

is_nil-to_lower : (s : Text) → is_nil (to_lower s) ≡ is_nil s
is_nil-to_lower [] = refl
is_nil-to_lower (c ∷ s) = refl

trim_right-to_lower : (s : Text) → trim_right (to_lower s) ≡ to_lower (trim_right s)
unfolding trim_right
trim_right-to_lower [] = refl
trim_right-to_lower (c ∷ s) =
    ground (arith, is_space-lower c, trim_right-to_lower s, is_nil-to_lower (trim_right s))

-- Trimming does not look at case.
pub trim_space-to_lower : (s : Text) → trim_space (to_lower s) ≡ to_lower (trim_space s)
unfolding trim_space
trim_space-to_lower s = ap trim_right (trim_left-to_lower s) ∙ trim_right-to_lower (trim_left s)

trim_right-trim_right : (s : Text) → trim_right (trim_right s) ≡ trim_right s
unfolding trim_right
trim_right-trim_right [] = refl
trim_right-trim_right (c ∷ s) = ground (arith, trim_right-trim_right s)

trim_left-trim_right : (s : Text) → trim_left (trim_right (trim_left s)) ≡ trim_right (trim_left s)
unfolding trim_left trim_right
trim_left-trim_right [] = refl
trim_left-trim_right (c ∷ s) = ground (arith, trim_left-trim_right s)

-- Trimming twice is trimming once.
pub trim_space-trim_space : (s : Text) → trim_space (trim_space s) ≡ trim_space s
unfolding trim_space
trim_space-trim_space s =
    ap trim_right (trim_left-trim_right s) ∙ trim_right-trim_right (trim_left s)

pub equal_fold_iff : (a b : Text) → (equal_fold a b ≡ true) ↔ (map fold_case a ≡ map fold_case b)
unfolding equal_fold
equal_fold_iff a b = beq_iff (map fold_case a) (map fold_case b)

-- `slices.Contains` finds exactly the members.
pub contains_text-In : (ws : List Text) (w : Text) → contains_text ws w ≡ true → In w ws
unfolding contains_text
contains_text-In [] w h = cc
contains_text-In (v ∷ ws) w h = elim (Bool-cases (beq v w)) [
  | inl e ↦ here (sym ((beq_iff v w).0 e))
  | inr e ↦ there (contains_text-In ws w (ground arith))
]

pub In-contains_text : (ws : List Text) (w : Text) → In w ws → contains_text ws w ≡ true
unfolding contains_text
In-contains_text [] w i = elim i [ ]
In-contains_text (v ∷ ws) w (here e) = ground (arith, beq_iff v w)
In-contains_text (v ∷ ws) w (there i) = ground (arith, In-contains_text ws w i)

-- Splitting at a separator that a word does not have.
pub split-word : (sep : ℕ) (w : Text) → All (λ c. c ≢ sep) w → split sep w ≡ w ∷ []
unfolding split
split-word sep [] h = refl
split-word sep (c ∷ w) h = ground (arith, h.0, split-word sep w h.1)

pub split-append :
    (sep : ℕ) (w rest : Text)
    → All (λ c. c ≢ sep) w
    → split sep (w ++ sep ∷ rest) ≡ w ∷ split sep rest
unfolding split
split-append sep [] rest h = ground arith
split-append sep (c ∷ w) rest h = ground (arith, h.0, split-append sep w rest h.1)

-- What a trimmed text contains, the text itself contains.
has_prefix-trim_right : (s t : Text) → has_prefix (trim_right s) t ≡ true → has_prefix s t ≡ true
unfolding has_prefix trim_right
has_prefix-trim_right [] t h = h
has_prefix-trim_right (c ∷ s) [] h = refl
has_prefix-trim_right (c ∷ s) (d ∷ t) h = ground (arith, has_prefix-trim_right s t)

contains-trim_right : (s t : Text) → contains (trim_right s) t ≡ true → contains s t ≡ true
unfolding contains has_prefix trim_right
contains-trim_right [] t h = h
contains-trim_right (c ∷ s) [] h = refl
contains-trim_right (c ∷ s) (d ∷ t) h =
    ground (arith, has_prefix-trim_right s t, contains-trim_right s (d ∷ t))

contains-trim_left : (s t : Text) → contains (trim_left s) t ≡ true → contains s t ≡ true
unfolding contains trim_left
contains-trim_left [] t h = h
contains-trim_left (c ∷ s) t h = ground (arith, contains-trim_left s t)

pub contains-trim_space : (s t : Text) → contains (trim_space s) t ≡ true → contains s t ≡ true
unfolding trim_space
contains-trim_space s t h = contains-trim_left s t (contains-trim_right (trim_left s) t h)
