-- ===== src/Common/Sorting.antt =====
-- `sort.Slice` by a numeric key, as an insertion sort, and the first element that passes a test.
-- Go's sort leaves the order of equal keys open; this one keeps it.
use Prim.Native.Nat.{ℕ, ◌≤◌, ◌<◌}
use mathlib.Core.Path.{◌≡◌, refl}
use mathlib.Core.Logic.{◌≢◌, inl, inr}
use mathlib.Core.Bool.{Bool, true, false, ◌||◌}
use mathlib.Core.List.{List, [], ◌∷◌}
use mathlib.Core.Option.{Option, none, some}
use native.Mathlib.Omega.{arith}
use ciscollector_v.Common.Tests.{leb, if◌then◌else◌, Bool-cases, leb→le}
use ciscollector_v.Common.Lists.{All, any}

unfoldable pub find {ℓ} : {A : Type ℓ} → (A → Bool) → List A → Option A
find p [] = none
find p (x ∷ xs) = if p x then some x else find p xs

module _ {A : Type 0} (key : A → ℕ) where
  unfoldable pub insert_by : A → List A → List A
  insert_by x [] = x ∷ []
  insert_by x (y ∷ ys) = if leb (key x) (key y) then x ∷ y ∷ ys else y ∷ insert_by x ys

  unfoldable pub sort_by : List A → List A
  unfolding insert_by
  sort_by [] = []
  sort_by (x ∷ xs) = insert_by x (sort_by xs)

  abbrev pub AtMost : A → A → Type 0
  AtMost x y = key x ≤ key y

  abbrev pub IsSorted : List A → Type 0
  IsSorted [] = Unit
  IsSorted (x ∷ xs) = All (AtMost x) xs × IsSorted xs

  All-insert_by {κ} :
      (P : A → Type κ) (x : A) (ys : List A) → P x → All P ys → All P (insert_by x ys)
  unfolding insert_by
  All-insert_by P x [] h k = (h, tt)
  All-insert_by P x (y ∷ ys) h k = elim (Bool-cases (leb (key x) (key y))) [
    | inl e ↦ rw e (h, k)
    | inr e ↦ rw e (k.0, All-insert_by P x ys h k.1)
  ]

  All-insert_by_back {κ} :
      (P : A → Type κ) (x : A) (ys : List A) → All P (insert_by x ys) → P x × All P ys
  unfolding insert_by
  All-insert_by_back P x [] h = h
  All-insert_by_back P x (y ∷ ys) h = elim (Bool-cases (leb (key x) (key y))) [
    | inl e ↦ rw e at h
    | inr e ↦
        let h' : P y × All P (insert_by x ys) = rw e at h in
        let (px, rest) = All-insert_by_back P x ys h'.1 in (px, (h'.0, rest))
  ]

  pub All-sort_by {κ} : (P : A → Type κ) (xs : List A) → All P xs → All P (sort_by xs)
  unfolding sort_by
  All-sort_by P [] h = tt
  All-sort_by P (x ∷ xs) h = All-insert_by P x (sort_by xs) h.0 (All-sort_by P xs h.1)

  pub All-sort_by_back {κ} : (P : A → Type κ) (xs : List A) → All P (sort_by xs) → All P xs
  unfolding sort_by
  All-sort_by_back P [] h = tt
  All-sort_by_back P (x ∷ xs) h =
      let (px, rest) = All-insert_by_back P x (sort_by xs) h in (px, All-sort_by_back P xs rest)

  pub All-mono {κ} : (P Q : A → Type κ) (xs : List A) → ((x : A) → P x → Q x) → All P xs → All Q xs
  All-mono P Q [] f h = tt
  All-mono P Q (x ∷ xs) f h = (f x h.0, All-mono P Q xs f h.1)

  insert_by-IsSorted : (x : A) (ys : List A) → IsSorted ys → IsSorted (insert_by x ys)
  unfolding insert_by
  insert_by-IsSorted x [] h = (tt, tt)
  insert_by-IsSorted x (y ∷ ys) h = elim (Bool-cases (leb (key x) (key y))) [
    | inl e ↦
        let le = leb→le (key x) (key y) e in
        rw e ((le, All-mono (AtMost y) (AtMost x) ys (λ z p. omega arith) h.0), h)
    | inr e ↦
        let le : key y ≤ key x = ground arith in
        rw e (All-insert_by (AtMost y) x ys le h.0, insert_by-IsSorted x ys h.1)
  ]

  -- Sorting sorts.
  pub sort_by-IsSorted : (xs : List A) → IsSorted (sort_by xs)
  unfolding sort_by
  sort_by-IsSorted [] = tt
  sort_by-IsSorted (x ∷ xs) = insert_by-IsSorted x (sort_by xs) (sort_by-IsSorted xs)

  absurd_true {κ} : {C : Type κ} {b : Bool} → b ≡ false → b ≡ true → C
  absurd_true h k = cc

  -- The first element of a sorted list that passes a test has the least key among those.
  pub find-IsSorted :
      (p : A → Bool) (xs : List A) {x : A}
      → IsSorted xs
      → find p xs ≡ some x
      → (p x ≡ true) × All (λ y. p y ≡ true → key x ≤ key y) xs
  unfolding find
  find-IsSorted p [] h e = cc
  find-IsSorted p (y ∷ ys) {x} h e = elim (Bool-cases (p y)) [
    | inl t ↦
        let same : x ≡ y = ground arith in
        rw same (t, ((λ _. omega arith), All-mono (AtMost y) _ ys (λ z q _. rw same q) h.0))
    | inr f ↦ let ih = find-IsSorted p ys h.1 (ground arith) in (ih.0, (absurd_true f, ih.1))
  ]

pub All-find {ℓ κ} :
    {A : Type ℓ} (P : A → Type κ) (p : A → Bool) (xs : List A) {x : A}
    → All P xs
    → find p xs ≡ some x
    → P x
unfolding find
All-find P p [] h e = cc
All-find P p (y ∷ ys) {x} h e = elim (Bool-cases (p y)) [
  | inl t ↦ let same : x ≡ y = ground arith in rw same h.0
  | inr f ↦ All-find P p ys h.1 (ground arith)
]

pub find-none {ℓ} :
    {A : Type ℓ} (p : A → Bool) (xs : List A) → find p xs ≡ none → All (λ y. p y ≡ false) xs
unfolding find
find-none p [] e = tt
find-none p (y ∷ ys) e = (ground arith, find-none p ys (ground arith))

-- Numbers that rise strictly.
abbrev pub Increasing : List ℕ → Type 0
Increasing [] = Unit
Increasing (x ∷ xs) = All (λ y. x < y) xs × Increasing xs

-- Numbers of which no two are equal.
abbrev pub Distinct : List ℕ → Type 0
Distinct [] = Unit
Distinct (x ∷ xs) = All (λ y. x ≢ y) xs × Distinct xs

insert_by-Increasing :
    (x : ℕ) (ys : List ℕ)
    → All (λ y. x ≢ y) ys
    → Increasing ys
    → Increasing (insert_by (λ n. n) x ys)
unfolding insert_by
insert_by-Increasing x [] ne h = (tt, tt)
insert_by-Increasing x (y ∷ ys) ne h = elim (Bool-cases (leb x y)) [
  | inl e ↦
      let lt : x < y = omega (arith, leb→le x y e, ne.0) in
      rw e ((lt, All-mono (λ n. n) (λ z. y < z) (λ z. x < z) ys (λ z p. omega arith) h.0), h)
  | inr e ↦
      let lt : y < x = ground arith in
      rw e (All-insert_by (λ n. n) (λ z. y < z) x ys lt h.0, insert_by-Increasing x ys ne.1 h.1)
]

pub sort_by-Increasing : (xs : List ℕ) → Distinct xs → Increasing (sort_by (λ n. n) xs)
unfolding sort_by
sort_by-Increasing [] h = tt
sort_by-Increasing (x ∷ xs) h =
    insert_by-Increasing x (sort_by (λ n. n) xs) (All-sort_by (λ n. n) _ xs h.0)
      (sort_by-Increasing xs h.1)

any-insert_by :
    (p : ℕ → Bool) (x : ℕ) (ys : List ℕ) → any p (insert_by (λ n. n) x ys) ≡ (p x || any p ys)
unfolding any insert_by
any-insert_by p x [] = refl
any-insert_by p x (y ∷ ys) = ground (arith, any-insert_by p x ys)

pub any-sort_by : (p : ℕ → Bool) (xs : List ℕ) → any p (sort_by (λ n. n) xs) ≡ any p xs
unfolding any sort_by
any-sort_by p [] = refl
any-sort_by p (x ∷ xs) = ground (arith, any-insert_by p x (sort_by (λ n. n) xs), any-sort_by p xs)
