-- ===== src/LogParser/Encrypted.antt =====
-- parse.go: the passwords that `PasswordLeakParser` takes for encrypted ones.
use mathlib.Core.Path.{ap₂}
use ciscollector_v.Common.{
  ℕ, ◌≡◌, ◌≢◌, ◌↔◌, refl, inl, inr, true, false, ◌&&◌, List, [], ◌∷◌, ◌++◌, Text, lit, has_prefix,
  length, length-append, ltb, ==_iff, In, here, there, arith, Bool-cases,
}
use ciscollector_v.LogParser.Feeds.{is_encrypted}

-- the words of a password that is already encrypted
abbrev pub marks : List Text
marks = lit "md5" ∷ lit "scram-sha-256" ∷ lit "plain" ∷ lit "crypt" ∷ lit "password" ∷ []

-- The text is one of the words with more text after it.
abbrev pub IsMarked : List Text → Text → Type 0
IsMarked words t = (word : Text) × (rest : Text) × In word words × (t ≡ word ++ rest) × (rest ≢ [])

cons_inj : {c d : ℕ} {t u : Text} → c ∷ t ≡ d ∷ u → (c ≡ d) × (t ≡ u)
cons_inj e = (cc, cc)

has_prefix_iff : (t p : Text) → (has_prefix t p ≡ true) ↔ ((rest : Text) × (t ≡ p ++ rest))
unfolding has_prefix
has_prefix_iff t [] = ((λ _. (t, refl)), λ _. refl)
has_prefix_iff [] (d ∷ p) = ((λ e. cc), λ (rest, e). cc)
has_prefix_iff (c ∷ t) (d ∷ p) = (
  (λ e.
      let same : c ≡ d = (==_iff c d).0 (ground arith) in
      let (rest, f) = (has_prefix_iff t p).0 (ground arith) in (rest, ap₂ ◌∷◌ same f)),
  λ (rest, e).
      let (head, tail) = cons_inj e in
      let tails = (has_prefix_iff t p).1 (rest, tail) in
      let heads = (==_iff c d).1 head in rw (heads, tails) refl,
)

longer : (word rest : Text) → (ltb (length word) (length (word ++ rest)) ≡ true) ↔ (rest ≢ [])
longer word [] = ((λ h e. ground (arith, length-append word [])), λ ne. absurd (ne refl))
longer word (c ∷ rest) = ((λ h e. cc), λ ne. ground (arith, length-append word (c ∷ rest)))

is_encrypted-IsMarked :
    (words : List Text) (t : Text) → is_encrypted words t ≡ true → IsMarked words t
unfolding is_encrypted
is_encrypted-IsMarked [] t h = cc
is_encrypted-IsMarked (w ∷ ws) t h =
    elim (Bool-cases (has_prefix t w && ltb (length w) (length t))) [
      | inl e ↦
          let (rest, same) = (has_prefix_iff t w).0 (ground arith) in
          let more : ltb (length w) (length (w ++ rest)) ≡ true = rw⁻¹ same (ground arith) in
          (w, rest, here refl, same, (longer w rest).0 more)
      | inr e ↦
          let (word, rest, i, same, ne) = is_encrypted-IsMarked ws t (ground arith) in
          (word, rest, there i, same, ne)
    ]

IsMarked-is_encrypted :
    (words : List Text) (t : Text) → IsMarked words t → is_encrypted words t ≡ true
unfolding is_encrypted
IsMarked-is_encrypted [] t (word, rest, i, same, ne) = elim i [ ]
IsMarked-is_encrypted (w ∷ ws) t (word, rest, here e, same, ne) =
    let p = (has_prefix_iff t w).1 (rest, rw⁻¹ e same) in
    let more : ltb (length w) (length t) ≡ true = rw (same, e) ((longer w rest).1 ne) in
    rw (p, more) refl
IsMarked-is_encrypted (w ∷ ws) t (word, rest, there i, same, ne) =
    ground (arith, IsMarked-is_encrypted ws t (word, rest, i, same, ne))

pub not_encrypted :
    (words : List Text) (t : Text) → (IsMarked words t → ⊥) → is_encrypted words t ≡ false
not_encrypted words t h = elim (Bool-cases (is_encrypted words t)) [
  | inl e ↦ absurd (h (is_encrypted-IsMarked words t e))
  | inr e ↦ e
]

pub not_marked :
    (words : List Text) (t : Text) → is_encrypted words t ≡ false → IsMarked words t → ⊥
not_marked words t h m = cc (h, IsMarked-is_encrypted words t m)
