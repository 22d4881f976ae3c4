-- ===== src/Utils/Chunks.antt =====
-- pkg/utils/strings.go: `Chunks`, which cuts a text for the detectors at its words.
use mathlib.Core.List.{append_assoc}
use ciscollector_v.Common.{
  ℕ, ◌+◌, ◌≤◌, ◌≡◌, refl, sym, ap, ◌∙◌, ◌⊎◌, inl, inr, false, List, [], ◌∷◌, ◌++◌, Text, lit,
  is_nil, fields, join, map, All, All-append, ltb, if◌then◌else◌, arith, Bool-cases, fields-All,
}

-- the bytes of a character in UTF-8
unfoldable pub char_size : ℕ → ℕ
char_size c = if ltb c 0x80 then 1 else if ltb c 0x800 then 2 else if ltb c 0x10000 then 3 else 4

-- `len` of a string
unfoldable pub size : Text → ℕ
unfolding char_size
size [] = 0
size (c ∷ cs) = char_size c + size cs

unfoldable pub add_word : Text → Text → Text
add_word [] word = word
add_word (c ∷ cs) word = (c ∷ cs) ++ b' ' ∷ word

abbrev chunk_if : Text → List Text
chunk_if [] = []
chunk_if (c ∷ cs) = (c ∷ cs) ∷ []

-- the loop over the words, with the chunk under way
unfoldable pub chunk_words : ℕ → Text → List Text → List Text
unfolding size add_word
chunk_words max_chunk_size current [] = chunk_if current
chunk_words max_chunk_size current (word ∷ words) =
    let closed = current ∷ chunk_words max_chunk_size word words in
    let longer = chunk_words max_chunk_size (add_word current word) words in
    if ltb max_chunk_size (size current + size word + 1) then closed else longer

-- `Chunks`
unfoldable pub chunks : Text → ℕ → List Text
unfolding chunk_words fields
chunks v max_chunk_size = chunk_words max_chunk_size [] (fields v)

size-append : (s t : Text) → size (s ++ t) ≡ size s + size t
unfolding size
size-append [] t = omega arith
size-append (c ∷ s) t = omega (arith, size-append s t)

-- The words of a chunk with one space between them.
abbrev pub spaced : List Text → Text
spaced = join (lit " ")

abbrev pub flat : List (List Text) → List Text
flat [] = []
flat (g ∷ gs) = g ++ flat gs

-- At most as many bytes as asked for, or a single word.
abbrev pub Fits : ℕ → List Text → Type 0
Fits max_chunk_size g = (size (spaced g) ≤ max_chunk_size) ⊎ ((w : Text) × (g ≡ w ∷ []))

abbrev IsWord : Text → Type 0
IsWord w = is_nil w ≡ false

add_word_lem : (t w : Text) → is_nil t ≡ false → add_word t w ≡ t ++ b' ' ∷ w
unfolding add_word
add_word_lem [] w h = cc
add_word_lem (c ∷ t) w h = refl

is_nil-spaced : (v : Text) (g : List Text) → IsWord v → is_nil (spaced (v ∷ g)) ≡ false
unfolding join
is_nil-spaced [] g h = cc
is_nil-spaced (c ∷ v) [] h = refl
is_nil-spaced (c ∷ v) (u ∷ g) h = refl

spaced-append :
    (g : List Text) (w : Text) → All IsWord g → spaced (g ++ w ∷ []) ≡ add_word (spaced g) w
unfolding join add_word
spaced-append [] w h = refl
spaced-append (v ∷ []) w h = sym (add_word_lem v w h.0)
spaced-append (v ∷ u ∷ g) w h =
    let inner =
      spaced-append (u ∷ g) w h.1 ∙ add_word_lem (spaced (u ∷ g)) w (is_nil-spaced u g h.1.0) in
    let outer = add_word_lem (spaced (v ∷ u ∷ g)) w (is_nil-spaced v (u ∷ g) h.0) in
    ap (λ t. v ++ b' ' ∷ t) inner
    ∙ sym (append_assoc v (b' ' ∷ spaced (u ∷ g)) (b' ' ∷ w))
    ∙ sym outer

size-add_word : (t w : Text) → size (add_word t w) ≤ size t + size w + 1
unfolding add_word size
size-add_word [] w = omega arith
size-add_word (c ∷ t) w =
    let whole = size-append (c ∷ t) (b' ' ∷ w) in
    let blank : size (b' ' ∷ w) ≡ 1 + size w = refl in omega (arith, whole, blank)

chunk_if-spaced :
    (v : Text) (g : List Text) → IsWord v → chunk_if (spaced (v ∷ g)) ≡ spaced (v ∷ g) ∷ []
chunk_if-spaced v g h = whole (spaced (v ∷ g)) (is_nil-spaced v g h)
  where
    whole : (t : Text) → is_nil t ≡ false → chunk_if t ≡ t ∷ []
    whole [] e = cc
    whole (c ∷ t) e = refl

-- The chunks are groups of the words, in order, with one space between the words of a group.
abbrev pub AreChunks : ℕ → List Text → List Text → Type 0
AreChunks max_chunk_size words cs =
    (groups : List (List Text)) × (cs ≡ map spaced groups)
    × (flat groups ≡ words)
    × All (Fits max_chunk_size) groups

chunk_words-AreChunks :
    (max_chunk_size : ℕ) (g words : List Text)
    → All IsWord g
    → All IsWord words
    → Fits max_chunk_size g
    → AreChunks max_chunk_size (g ++ words) (chunk_words max_chunk_size (spaced g) words)
unfolding chunk_words join
chunk_words-AreChunks max_chunk_size [] [] hg hw fit = ([], refl, refl, tt)
chunk_words-AreChunks max_chunk_size (v ∷ g) [] hg hw fit =
    ((v ∷ g) ∷ [], chunk_if-spaced v g hg.0, refl, (fit, tt))
chunk_words-AreChunks max_chunk_size g (w ∷ words) hg hw fit =
    elim (Bool-cases (ltb max_chunk_size (size (spaced g) + size w + 1))) [
      | inl t ↦
          let (gs, same, flat_lem, fits) =
            chunk_words-AreChunks max_chunk_size (w ∷ []) words (hw.0, tt) hw.1 (inr (w, refl)) in
          rw t (g ∷ gs, ap (λ cs. spaced g ∷ cs) same, ap (λ ws. g ++ ws) flat_lem, (fit, fits))
      | inr t ↦
          let small : size (spaced g) + size w + 1 ≤ max_chunk_size = ground arith in
          let longer = spaced-append g w hg in
          let sized = size-add_word (spaced g) w in
          let fit' : Fits max_chunk_size (g ++ w ∷ []) = inl (rw longer (omega arith)) in
          let (gs, same, flat_lem, fits) =
            chunk_words-AreChunks max_chunk_size (g ++ w ∷ []) words
              (All-append IsWord g (w ∷ []) hg (hw.0, tt)) hw.1 fit' in
          rw t (gs, rw longer at same, flat_lem ∙ append_assoc g (w ∷ []) words, fits)
    ]

-- The chunks of a text have its words, in order, each word in one chunk; in a chunk the words stand
-- with one space between them, and it has at most as many bytes as asked for, or is a single word.
pub chunks-AreChunks :
    (v : Text) (max_chunk_size : ℕ) → AreChunks max_chunk_size (fields v) (chunks v max_chunk_size)
unfolding chunks join size
chunks-AreChunks v max_chunk_size =
    chunk_words-AreChunks max_chunk_size [] (fields v) tt (fields-All v) (inl (omega arith))
