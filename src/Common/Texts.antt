-- ===== src/Common/Texts.antt =====
-- The parts of Go's `strings` package that the program uses. A text is the list of its code
-- points. `unicode.IsSpace` is complete; `strings.ToLower` and `strings.EqualFold` are exact for
-- every character that meets an ASCII letter, and leave the case of other letters alone.
use Prim.Native.Nat.{ℕ, ◌+◌}
use Prim.Native.Char.{code}
use Prim.Native.String.{String}
use mathlib.Core.Path.{◌≡◌, refl}
use mathlib.Core.Logic.{◌↔◌, inl, inr}
use mathlib.Core.Bool.{Bool, true, false, ◌&&◌, ◌||◌}
use mathlib.Core.List.{List, [], ◌∷◌, ◌++◌, map}
use native.Mathlib.Omega.{arith}
use ciscollector_v.Common.Tests.{leb, ◌==◌, Bool-cases, if◌then◌else◌}
use ciscollector_v.Common.Lists.{is_nil, any, All}

abbrev pub Text : Type 0
Text = List ℕ

-- The code points of a literal.
abbrev pub lit : String → Text
lit String.[] = []
lit (String.◌∷◌ c s) = code c ∷ lit s

-- `==` on strings
unfoldable pub beq : Text → Text → Bool
beq [] [] = true
beq (x ∷ xs) (y ∷ ys) = x == y && beq xs ys
beq _ _ = false

pub beq_iff : (a b : Text) → (beq a b ≡ true) ↔ (a ≡ b)
unfolding beq
beq_iff (x ∷ a) (y ∷ b) = ground (arith, beq_iff a b)
beq_iff _ _ = ground arith

pub beq_refl : (a : Text) → beq a a ≡ true
beq_refl a = (beq_iff a a).1 refl

-- `unicode.IsSpace`
unfoldable pub is_space : ℕ → Bool
is_space c =
    leb 9 c && leb c 13
    || c == 32
    || c == 0x85
    || c == 0xa0
    || c == 0x1680
    || leb 0x2000 c && leb c 0x200a
    || c == 0x2028
    || c == 0x2029
    || c == 0x202f
    || c == 0x205f
    || c == 0x3000

unfoldable pub trim_left : Text → Text
trim_left [] = []
trim_left (c ∷ cs) = let rest = trim_left cs in if is_space c then rest else c ∷ cs

unfoldable pub trim_right : Text → Text
trim_right [] = []
trim_right (c ∷ cs) = let rest = trim_right cs in if is_space c && is_nil rest then [] else c ∷ rest

-- `strings.TrimSpace`
unfoldable pub trim_space : Text → Text
unfolding trim_left trim_right is_space
trim_space s = trim_right (trim_left s)

-- `unicode.ToLower`: the ASCII letters, and the two other characters with an ASCII lower case
unfoldable pub lower : ℕ → ℕ
lower c =
    if leb b'A' c && leb c b'Z'
    then c + 32
    else if c == 0x130
    then b'i'
    else if c == 0x212a
    then b'k'
    else c

-- `strings.ToLower`
abbrev pub to_lower : Text → Text
to_lower = map lower

-- The representative of a character under simple case folding.
unfoldable pub fold_case : ℕ → ℕ
fold_case c =
    if leb b'A' c && leb c b'Z'
    then c + 32
    else if c == 0x17f
    then b's'
    else if c == 0x212a
    then b'k'
    else c

-- `strings.EqualFold`
unfoldable pub equal_fold : Text → Text → Bool
unfolding fold_case beq
equal_fold a b = beq (map fold_case a) (map fold_case b)

-- `strings.HasPrefix s p`
unfoldable pub has_prefix : Text → Text → Bool
has_prefix s [] = true
has_prefix [] (p ∷ ps) = false
has_prefix (c ∷ cs) (p ∷ ps) = c == p && has_prefix cs ps

-- `strings.Contains s t`
unfoldable pub contains : Text → Text → Bool
unfolding has_prefix
contains [] t = is_nil t
contains (c ∷ cs) t = has_prefix (c ∷ cs) t || contains cs t

-- The pieces of a text, the first one apart.
abbrev pub cons_head : ℕ → List Text → List Text
cons_head c [] = (c ∷ []) ∷ []
cons_head c (w ∷ ws) = (c ∷ w) ∷ ws

-- `strings.Split` at a separator of one character
unfoldable pub split : ℕ → Text → List Text
split sep [] = [] ∷ []
split sep (c ∷ cs) = let rest = split sep cs in if c == sep then [] ∷ rest else cons_head c rest

abbrev pub close_word : Text → List Text → List Text
close_word [] ws = ws
close_word (c ∷ cs) ws = (c ∷ cs) ∷ ws

-- the word under way stands before the words already closed
fields_onto : Text → Text → List Text
fields_onto word [] = close_word word []
fields_onto word (c ∷ cs) =
    let closed = fields_onto [] cs in
    let longer = fields_onto (word ++ c ∷ []) cs in
    if is_space c then close_word word closed else longer

-- `strings.Fields`
unfoldable pub fields : Text → List Text
unfolding fields_onto is_space
fields = fields_onto []

-- a word is not empty
close_word-All :
    (word : Text) (ws : List Text)
    → All (λ w. is_nil w ≡ false) ws
    → All (λ w. is_nil w ≡ false) (close_word word ws)
close_word-All [] ws h = h
close_word-All (c ∷ cs) ws h = (refl, h)

fields_onto-All : (word s : Text) → All (λ w. is_nil w ≡ false) (fields_onto word s)
unfolding fields_onto
fields_onto-All word [] = close_word-All word [] tt
fields_onto-All word (c ∷ cs) = elim (Bool-cases (is_space c)) [
  | inl e ↦ rw e (close_word-All word (fields_onto [] cs) (fields_onto-All [] cs))
  | inr e ↦ rw e (fields_onto-All (word ++ c ∷ []) cs)
]

pub fields-All : (s : Text) → All (λ w. is_nil w ≡ false) (fields s)
unfolding fields
fields-All s = fields_onto-All [] s

-- `strings.Join`
unfoldable pub join : Text → List Text → Text
join sep [] = []
join sep (w ∷ []) = w
join sep (w ∷ v ∷ ws) = w ++ (sep ++ join sep (v ∷ ws))

-- `slices.Contains`
unfoldable pub contains_text : List Text → Text → Bool
unfolding any beq
contains_text ws w = any (λ v. beq v w) ws
