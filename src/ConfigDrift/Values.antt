-- ===== src/ConfigDrift/Values.antt =====
-- compareconfig.go: normalised values, and the order of the settings.
use ciscollector_v.Common.{
  ◌≡◌, refl, ap, ◌∙◌, ◌⊎◌, inl, inr, Bool, true, false, List, [], ◌∷◌, Text, lit, beq, trim_space,
  to_lower, contains_text, arith, Bool-cases, All, count, lower,
}
use ciscollector_v.Common.TextLaws.{to_lower-to_lower, trim_space-to_lower, trim_space-trim_space}
use ciscollector_v.Common.Maps.{text_eq}
use ciscollector_v.ConfigDrift.Baseline.{
  normal_word, normalize_guc_value, text_le, insert_text, sort_texts, on_words, off_words,
}

normal_word-cases :
    (w : Text) → (normal_word w ≡ lit "on") ⊎ (normal_word w ≡ lit "off") ⊎ (normal_word w ≡ w)
unfolding normal_word
normal_word-cases w = elim (Bool-cases (contains_text on_words w)) [
  | inl e ↦ inl (rw e refl)
  | inr e ↦ elim (Bool-cases (contains_text off_words w)) [
    | inl f ↦ inr (inl (rw (e, f) refl))
    | inr f ↦ inr (inr (rw (e, f) refl))
  ]
]

to_lower-trim_space : (v : Text) → trim_space (to_lower (trim_space v)) ≡ to_lower (trim_space v)
to_lower-trim_space v = trim_space-to_lower (trim_space v) ∙ ap to_lower (trim_space-trim_space v)

normalize-on : normalize_guc_value (lit "on") ≡ lit "on"
unfolding normalize_guc_value trim_space normal_word contains_text beq lower
normalize-on = refl

normalize-off : normalize_guc_value (lit "off") ≡ lit "off"
unfolding normalize_guc_value trim_space normal_word contains_text beq lower
normalize-off = refl

beq_nil-to_lower : (t : Text) → beq (to_lower t) [] ≡ beq t []
unfolding beq
beq_nil-to_lower [] = refl
beq_nil-to_lower (c ∷ t) = refl

-- Normalising a value of a setting twice is normalising it once.
pub normalize_guc_value-normalize_guc_value :
    (v : Text) → normalize_guc_value (normalize_guc_value v) ≡ normalize_guc_value v
unfolding normalize_guc_value
normalize_guc_value-normalize_guc_value v = elim (Bool-cases (beq (trim_space v) [])) [
  | inl e ↦ rw e refl
  | inr e ↦
      let w = to_lower (trim_space v) in
      let nonblank : beq w [] ≡ false = beq_nil-to_lower (trim_space v) ∙ e in
      elim (normal_word-cases w) [
        | inl on ↦ rw (e, on) normalize-on
        | inr (inl off) ↦ rw (e, off) normalize-off
        | inr (inr word) ↦
            rw (e, word, to_lower-trim_space v, nonblank, to_lower-to_lower (trim_space v)) word
      ]
]

text_le-total : (a b : Text) → text_le a b ≡ false → text_le b a ≡ true
unfolding text_le
text_le-total [] b h = cc
text_le-total (x ∷ a) [] h = refl
text_le-total (x ∷ a) (y ∷ b) h = ground (arith, text_le-total a b)

text_le-text_le : (a b c : Text) → text_le a b ≡ true → text_le b c ≡ true → text_le a c ≡ true
unfolding text_le
text_le-text_le [] b c h k = refl
text_le-text_le (x ∷ a) [] c h k = cc
text_le-text_le (x ∷ a) (y ∷ b) [] h k = cc
text_le-text_le (x ∷ a) (y ∷ b) (z ∷ c) h k = ground (arith, text_le-text_le a b c)

-- Every text of the list may stand before those that follow it.
abbrev pub IsOrdered : List Text → Type 0
IsOrdered [] = Unit
IsOrdered (x ∷ xs) = All (λ y. text_le x y ≡ true) xs × IsOrdered xs

All-below :
    (x y : Text) (ys : List Text)
    → text_le x y ≡ true
    → All (λ z. text_le y z ≡ true) ys
    → All (λ z. text_le x z ≡ true) ys
All-below x y [] h k = tt
All-below x y (z ∷ ys) h k = (text_le-text_le x y z h k.0, All-below x y ys h k.1)

All-insert_text :
    (P : Text → Type 0) (x : Text) (ys : List Text) → P x → All P ys → All P (insert_text x ys)
unfolding insert_text
All-insert_text P x [] h k = (h, tt)
All-insert_text P x (y ∷ ys) h k = elim (Bool-cases (text_le x y)) [
  | inl e ↦ rw e (h, k)
  | inr e ↦ rw e (k.0, All-insert_text P x ys h k.1)
]

insert_text-IsOrdered : (x : Text) (ys : List Text) → IsOrdered ys → IsOrdered (insert_text x ys)
unfolding insert_text
insert_text-IsOrdered x [] h = (tt, tt)
insert_text-IsOrdered x (y ∷ ys) h = elim (Bool-cases (text_le x y)) [
  | inl e ↦ rw e ((e, All-below x y ys e h.0), h)
  | inr e ↦ rw e (
    All-insert_text (λ z. text_le y z ≡ true) x ys (text_le-total x y e) h.0,
    insert_text-IsOrdered x ys h.1,
  )
]

pub sort_texts-IsOrdered : (xs : List Text) → IsOrdered (sort_texts xs)
unfolding sort_texts
sort_texts-IsOrdered [] = tt
sort_texts-IsOrdered (x ∷ xs) = insert_text-IsOrdered x (sort_texts xs) (sort_texts-IsOrdered xs)

count-insert_text :
    (p : Text → Bool) (x : Text) (ys : List Text) → count p (insert_text x ys) ≡ count p (x ∷ ys)
unfolding count insert_text
count-insert_text p x [] = refl
count-insert_text p x (y ∷ ys) = ground (arith, count-insert_text p x ys)

pub count-sort_texts : (p : Text → Bool) (xs : List Text) → count p (sort_texts xs) ≡ count p xs
unfolding count sort_texts
count-sort_texts p [] = refl
count-sort_texts p (x ∷ xs) =
    omega (arith, count-insert_text p x (sort_texts xs), count-sort_texts p xs)
