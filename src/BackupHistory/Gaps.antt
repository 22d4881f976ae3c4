-- ===== src/BackupHistory/Gaps.antt =====
-- cmd/ciscollector/backuphistory.go: the numbers between neighbours of an ascending list, of which
-- the loops over the backups make the missing dates.
use ciscollector_v.Common.{
  ℕ, zero, suc, ◌+◌, ◌-◌, ◌≤◌, ◌<◌, ◌≢◌, refl, inl, inr, List, [], ◌∷◌, ◌++◌, All, In, here, there,
  All-append, In-append, In-append_left, In-append_right, In-cons, arith, Bool-cases, ◌==◌, ==_iff,
  ltb, ltb→lt,
}
use ciscollector_v.Common.Sorting.{Increasing, All-mono}

-- `n` numbers from `a` on.
abbrev pub range : ℕ → ℕ → List ℕ
range a zero = []
range a (suc n) = a ∷ range (a + 1) n

-- The numbers between neighbours.
abbrev pub gaps : ℕ → List ℕ → List ℕ
gaps a [] = []
gaps a (b ∷ bs) = range (a + 1) (b - (a + 1)) ++ gaps b bs

abbrev pub last_of : ℕ → List ℕ → ℕ
last_of a [] = a
last_of a (b ∷ bs) = last_of b bs

abbrev pub IsAscending : ℕ → List ℕ → Type 0
IsAscending a [] = Unit
IsAscending a (b ∷ bs) = (a ≤ b) × IsAscending b bs

In-range_up : (x a n : ℕ) → In x (range a n) → (a ≤ x) × (x < a + n)
In-range_up x a zero i = elim i [ ]
In-range_up x a (suc n) i = elim (In-cons i) [
  | inl e ↦ (omega arith, omega arith)
  | inr j ↦ let h = In-range_up x (a + 1) n j in (omega (arith, h.0), omega (arith, h.1))
]

In-range_down : (x a n : ℕ) → a ≤ x → x < a + n → In x (range a n)
In-range_down x a zero l u = absurd (omega arith)
In-range_down x a (suc n) l u = elim (Bool-cases (x == a)) [
  | inl e ↦ here ((==_iff x a).0 e)
  | inr f ↦ there (In-range_down x (a + 1) n (ground arith) (omega arith))
]

pub last_of-le : (a : ℕ) (bs : List ℕ) → IsAscending a bs → a ≤ last_of a bs
last_of-le a [] h = omega arith
last_of-le a (b ∷ bs) h = omega (arith, h.0, last_of-le b bs h.1)

last_of-ge : (a : ℕ) (bs : List ℕ) → IsAscending a bs → All (λ b. b ≤ last_of a bs) bs
last_of-ge a [] h = tt
last_of-ge a (b ∷ bs) h = (last_of-le b bs h.1, last_of-ge b bs h.1)

All-above : (x b : ℕ) (bs : List ℕ) → x < b → IsAscending b bs → All (λ c. c ≢ x) bs
All-above x b [] l h = tt
All-above x b (c ∷ bs) l h = ((λ e. omega (arith, h.0)), All-above x c bs (omega (arith, h.0)) h.1)

-- The gaps are the numbers between the ends that are not in the list.
pub gaps-In :
    (x a : ℕ) (bs : List ℕ)
    → IsAscending a bs
    → In x (gaps a bs)
    → (a < x) × (x < last_of a bs) × All (λ c. c ≢ x) bs
gaps-In x a [] h i = elim i [ ]
gaps-In x a (b ∷ bs) h i = elim (In-append (range (a + 1) (b - (a + 1))) i) [
  | inl l ↦
      let r = In-range_up x (a + 1) (b - (a + 1)) l in
      let le = last_of-le b bs h.1 in
      let lt : x < b = omega (arith, r.0, r.1) in
      (omega (arith, r.0), omega arith, ((λ e. omega arith), All-above x b bs lt h.1))
  | inr l ↦
      let (lo, hi, out) = gaps-In x b bs h.1 l in
      (omega (arith, h.0), hi, ((λ e. omega arith), out))
]

pub In-gaps :
    (x a : ℕ) (bs : List ℕ)
    → IsAscending a bs
    → a < x
    → x < last_of a bs
    → All (λ c. c ≢ x) bs
    → In x (gaps a bs)
In-gaps x a [] h lo hi out = absurd (omega arith)
In-gaps x a (b ∷ bs) h lo hi out = elim (Bool-cases (ltb x b)) [
  | inl e ↦
      let lt = ltb→lt x b e in
      In-append_left (gaps b bs) (In-range_down x (a + 1) (b - (a + 1)) (omega arith) (omega arith))
  | inr f ↦
      let ne : b ≢ x = out.0 in
      let lt : b < x = ground arith in
      In-append_right (range (a + 1) (b - (a + 1))) (In-gaps x b bs h.1 lt hi out.1)
]

range-Increasing : (a n : ℕ) → All (λ x. (a ≤ x) × (x < a + n)) (range a n) × Increasing (range a n)
range-Increasing a zero = (tt, tt)
range-Increasing a (suc n) =
    let (bounds, rest) = range-Increasing (a + 1) n in
    (
      (
        (omega arith, omega arith),
        All-mono (λ k. k) _ _ (range (a + 1) n) (λ x h. (omega (arith, h.0), omega (arith, h.1)))
            bounds,
      ),
      (All-mono (λ k. k) _ _ (range (a + 1) n) (λ x h. omega (arith, h.0)) bounds, rest),
    )

Increasing-append :
    (xs ys : List ℕ)
    → Increasing xs
    → Increasing ys
    → All (λ x. All (λ y. x < y) ys) xs
    → Increasing (xs ++ ys)
Increasing-append [] ys h k l = k
Increasing-append (x ∷ xs) ys h k l =
    (All-append (λ y. x < y) xs ys h.0 l.0, Increasing-append xs ys h.1 k l.1)

In-All : {P : ℕ → Type 0} (xs : List ℕ) → ((x : ℕ) → In x xs → P x) → All P xs
In-All [] f = tt
In-All (x ∷ xs) f = (f x (here refl), In-All xs (λ y i. f y (there i)))

-- The gaps come in rising order, each once.
pub gaps-Increasing : (a : ℕ) (bs : List ℕ) → IsAscending a bs → Increasing (gaps a bs)
gaps-Increasing a [] h = tt
gaps-Increasing a (b ∷ bs) h =
    let r = range-Increasing (a + 1) (b - (a + 1)) in
    Increasing-append (range (a + 1) (b - (a + 1))) (gaps b bs) r.1 (gaps-Increasing b bs h.1) (
      All-mono (λ k. k) _ _ (range (a + 1) (b - (a + 1)))
        (λ x bounds.
          In-All (gaps b bs)
            λ y i. let lo = (gaps-In y b bs h.1 i).0 in omega (arith, bounds.0, bounds.1))
        r.0)
