-- ===== src/BackupHistory/Walk.antt =====
-- cmd/ciscollector/backuphistory.go: how far the loops over the backups come, and what they add,
-- when a date has a number that the next date increases by one.
use mathlib.Core.List.{append_assoc, append-nil, map-append}
use ciscollector_v.Common.{
  ℕ, zero, suc, ◌+◌, ◌-◌, ◌≤◌, ◌<◌, ◌≡◌, ◌≢◌, ◌↔◌, refl, sym, ap, inl, inr, true, false, some, List,
  [], ◌∷◌, ◌++◌, map, All, All-append, arith, Bool-cases, Text, contains_text, any, beq_iff,
}
use ciscollector_v.Common.Sorting.{Increasing, All-mono}
use ciscollector_v.BackupHistory.Defs.{Pace, missing_until, missing_from, unique_onto}
use ciscollector_v.BackupHistory.Gaps.{range, gaps, last_of, IsAscending, last_of-le}

-- The dates are numbered: two are the same when their numbers are, the label tells the number, and
-- the next date of a date that is `Fine` has the next number.
pub record IsNumbered {Time : Type 0} (p : Pace Time) (number : Time → ℕ) (text : ℕ → Text)
    (Fine : Time → Type 0) : Type 0 where
  pub same_iff : (t u : Time) → (p.same t u ≡ true) ↔ (number t ≡ number u)
  pub label_lem : (t : Time) → p.label t ≡ text (number t)
  pub text_inj : (m n : ℕ) → text m ≡ text n → m ≡ n
  pub next_lem : (t : Time) → Fine t → (number (p.next t) ≡ number t + 1) × Fine (p.next t)

module _ {Time : Type 0} (p : Pace Time) (number : Time → ℕ) (text : ℕ → Text)
    (Fine : Time → Type 0) (law : IsNumbered p number text Fine) where
  missing_until_lem :
      (fuel : ℕ) (t current : Time) (missing : List Text)
      → Fine t
      → number t ≤ number current
      → number current < number t + fuel
      → missing_until p fuel t current missing
        ≡ some (missing ++ map text (range (number t) (number current - number t)))
  unfolding missing_until
  missing_until_lem zero t current missing f le lt = absurd (omega arith)
  missing_until_lem (suc fuel) t current missing f le lt = elim (Bool-cases (p.same t current)) [
    | inl e ↦
        let same = (law.same_iff t current).0 e in
        let none_left : number current - number t ≡ 0 = omega arith in
        rw (e, none_left) (ap some (sym (append-nil missing)))
    | inr e ↦
        let differ : number t ≢ number current = λ q. cc (e, (law.same_iff t current).1 q) in
        let (n, g) = law.next_lem t f in
        let ih =
          missing_until_lem fuel (p.next t) current (missing ++ p.label t ∷ []) g (omega arith)
            (omega arith) in
        let left : number current - number t ≡ suc (number current - (number t + 1)) =
          omega arith in
        let ih' = rw (law.label_lem t, n, append_assoc missing) at ih in
        rw (e, left, law.label_lem t) ih'
  ]

  pub missing_from_lem :
      (fuel : ℕ) (previous : Time) (backups : List Time) (missing : List Text)
      → All Fine (previous ∷ backups)
      → IsAscending (number previous) (map number backups)
      → last_of (number previous) (map number backups) < number previous + fuel
      → missing_from p fuel previous backups missing
        ≡ some (missing ++ map text (gaps (number previous) (map number backups)))
  unfolding missing_from
  missing_from_lem fuel previous [] missing f asc lt = ap some (sym (append-nil missing))
  missing_from_lem fuel previous (b ∷ bs) missing f asc lt = elim (Bool-cases (p.same previous b)) [
    | inl e ↦
        let same = (law.same_iff previous b).0 e in
        let none_left : number b - (number previous + 1) ≡ 0 = omega arith in
        rw (e, none_left, sym same)
          (missing_from_lem fuel previous bs missing (f.0, f.1.1) (rw same asc.1)
            (rw same (rw same at lt)))
    | inr e ↦
        let differ : number previous ≢ number b = λ q. cc (e, (law.same_iff previous b).1 q) in
        let (n, g) = law.next_lem previous f.0 in
        let le = last_of-le (number b) (map number bs) asc.1 in
        let one =
          missing_until_lem fuel (p.next previous) b missing g (omega (arith, asc.0))
            (omega (arith, asc.0)) in
        let two =
          missing_from_lem fuel b bs
            (missing ++ map text (range (number previous + 1) (number b - (number previous + 1))))
            f.1 asc.1 (omega (arith, asc.0)) in
        let one' = rw n at one in rw (e, one', map-append, ← append_assoc missing) two
  ]

module _ (text : ℕ → Text) (text_inj : (m n : ℕ) → text m ≡ text n → m ≡ n) where
  contains_text-map :
      (x : ℕ) (xs : List ℕ) → All (λ y. y < x) xs → contains_text (map text xs) (text x) ≡ false
  unfolding contains_text any
  contains_text-map x [] h = refl
  contains_text-map x (y ∷ ys) h =
      ground (arith, h.0, beq_iff (text y) (text x), text_inj y x, contains_text-map x ys h.1)

  -- Labels in rising order are unique as they are.
  pub unique_onto-Increasing :
      (xs ys : List ℕ)
      → All (λ x. All (λ y. x < y) ys) xs
      → Increasing ys
      → unique_onto (map text xs) (map text ys) ≡ map text xs ++ map text ys
  unfolding unique_onto
  unique_onto-Increasing xs [] h i = sym (append-nil (map text xs))
  unique_onto-Increasing xs (y ∷ ys) h i =
      let fresh = contains_text-map y xs (All-mono (λ k. k) _ _ xs (λ x l. l.0) h) in
      let below =
        All-append (λ x. All (λ z. x < z) ys) xs (y ∷ []) (All-mono (λ k. k) _ _ xs (λ x l. l.1) h)
          (i.0, tt) in
      let ih = unique_onto-Increasing (xs ++ y ∷ []) ys below i.1 in
      rw fresh (rw (map-append, append_assoc (map text xs)) at ih)
