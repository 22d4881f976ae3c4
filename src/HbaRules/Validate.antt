-- ===== src/HbaRules/Validate.antt =====
-- `ValidateEntry` of hba_file_rule.go: which line a log entry is counted for.
use ciscollector_v.Common.{
  ℕ, ◌≤◌, ◌≡◌, refl, ◌⊎◌, inl, inr, true, false, none, some, List, [], ◌∷◌, ◌++◌, Text, lit, beq,
  beq_iff, All, All-In, In, here, there, In-append, In-append_left, In-append_right, if◌then◌else◌,
  arith, Bool-cases, Option-cases,
}
use ciscollector_v.Common.Maps.{lookup, text_eq}
use ciscollector_v.Common.Sorting.{
  find, sort_by, All-sort_by, All-sort_by_back, sort_by-IsSorted, find-IsSorted, All-find,
  find-none,
}
use ciscollector_v.HbaRules.Defs.{
  HbaFileRule, or_empty, lines_of, candidates, accepts, number_of, mark, validate_entry,
}

-- A database field of a rule that is for the entry's database.
abbrev pub IsForDatabase : Text → Text → Text → Type 0
IsForDatabase database username d =
    (d ≡ database)
    ⊎ (((d ≡ lit "sameuser") ⊎ (d ≡ lit "samerole")) × (database ≡ username))
    ⊎ (d ≡ lit "all")

-- A user field of a rule that is for the entry's user.
abbrev pub IsForUser : Text → Text → Type 0
IsForUser username u = (u ≡ username) ⊎ (u ≡ lit "all")

abbrev pub lines_under : HbaFileRule → Text → Text → List ℕ
lines_under r d u = elim (lookup d r.m) [ none ↦ [] | some users ↦ or_empty (lookup u users) ]

-- The line `p` stands under a database and a user that are the entry's.
pub data Covers (r : HbaFileRule) (database username : Text) (p : ℕ) : Type 0 where
  covers :
      (d u : Text)
      → IsForDatabase database username d
      → IsForUser username u
      → In p (lines_under r d u)
      → Covers r database username p

lines_of-lines_under :
    (r : HbaFileRule) (d username : Text)
    → lines_of r d username ≡ lines_under r d username ++ lines_under r d (lit "all")
unfolding lines_of
lines_of-lines_under r d username = ground arith

module _ (r : HbaFileRule) (database username : Text) {p : ℕ} where
  Covers-lines_of :
      (d : Text)
      → IsForDatabase database username d
      → In p (lines_of r d username)
      → Covers r database username p
  Covers-lines_of d fits i =
      elim (In-append (lines_under r d username) (rw (lines_of-lines_under r d username) at i)) [
        | inl l ↦ covers d username fits (inl refl) l
        | inr l ↦ covers d (lit "all") fits (inr refl) l
      ]

  In-lines_of :
      (d u : Text) → IsForUser username u → In p (lines_under r d u) → In p (lines_of r d username)
  In-lines_of d u (inl e) i = rw (lines_of-lines_under r d username) (In-append_left _ (rw e at i))
  In-lines_of d u (inr e) i = rw (lines_of-lines_under r d username) (In-append_right _ (rw e at i))

  same_pieces :
      (d : Text)
      → In p (if beq database username then lines_of r d username else [])
      → (database ≡ username) × In p (lines_of r d username)
  same_pieces d i = elim (Bool-cases (beq database username)) [
    | inl e ↦ ((beq_iff database username).0 e, rw e at i)
    | inr e ↦ elim (let none_left : In p [] = rw e at i in none_left) [ ]
  ]

  In-same_pieces :
      (d : Text)
      → database ≡ username
      → In p (lines_of r d username)
      → In p (if beq database username then lines_of r d username else [])
  In-same_pieces d e i = rw ((beq_iff database username).1 e) i

  candidates-Covers : In p (candidates r database username) → Covers r database username p
  unfolding candidates
  candidates-Covers i = elim (In-append (lines_of r database username) i) [
    | inl a ↦ Covers-lines_of database (inl refl) a
    | inr b ↦
        elim (In-append (if beq database username then lines_of r (lit "sameuser") username else [])
          b) [
            | inl c ↦
                let (e, l) = same_pieces (lit "sameuser") c in
                Covers-lines_of (lit "sameuser") (inr (inl (inl refl, e))) l
            | inr d ↦
                elim (In-append
                  (if beq database username then lines_of r (lit "samerole") username else []) d) [
                    | inl c ↦
                        let (e, l) = same_pieces (lit "samerole") c in
                        Covers-lines_of (lit "samerole") (inr (inl (inr refl, e))) l
                    | inr l ↦ Covers-lines_of (lit "all") (inr (inr refl)) l
                  ]
          ]
  ]

  Covers-candidates : Covers r database username p → In p (candidates r database username)
  unfolding candidates
  Covers-candidates (covers d u (inl e) fits i) =
      In-append_left _ (rw e at (In-lines_of d u fits i))
  Covers-candidates (covers d u (inr (inl (inl e, same))) fits i) =
      In-append_right (lines_of r database username)
        (In-append_left _ (In-same_pieces (lit "sameuser") same (rw e at (In-lines_of d u fits i))))
  Covers-candidates (covers d u (inr (inl (inr e, same))) fits i) =
      In-append_right (lines_of r database username) (
        In-append_right (if beq database username then lines_of r (lit "sameuser") username else [])
          (In-append_left _
            (In-same_pieces (lit "samerole") same (rw e at (In-lines_of d u fits i)))))
  Covers-candidates (covers d u (inr (inr e)) fits i) =
      In-append_right (lines_of r database username) (
        In-append_right (if beq database username then lines_of r (lit "sameuser") username else [])
          (In-append_right
            (if beq database username then lines_of r (lit "samerole") username else [])
            (rw e at (In-lines_of d u fits i))))

All-In_self : (xs ys : List ℕ) → ((p : ℕ) → In p ys → In p xs) → All (λ p. In p xs) ys
All-In_self xs [] f = tt
All-In_self xs (y ∷ ys) f = (f y (here refl), All-In_self xs ys (λ p i. f p (there i)))

module _ (database username address : Text) (r : HbaFileRule) where
  -- `p` is the line that the entry is counted for.
  pub record IsFirst (p : ℕ) : Type 0 where
    pub covering : Covers r database username p
    pub accepting : accepts r address p ≡ true
    pub least :
        (q : ℕ)
        → Covers r database username q
        → accepts r address q ≡ true
        → number_of r p ≤ number_of r q

  -- A log entry is counted once, for a line that is under its database and user (or `all`,
  -- `sameuser`, `samerole`), accepts its address, and has the least line number of such
  -- lines; if there is none, nothing changes.
  pub validate_entry-IsFirst :
      ((p : ℕ) × (validate_entry database username address r ≡ mark r p) × IsFirst p)
      ⊎ ((validate_entry database username address r ≡ r)
          × ((q : ℕ) → Covers r database username q → accepts r address q ≡ false))
  unfolding validate_entry
  validate_entry-IsFirst =
      elim (Option-cases (find (accepts r address) (sort_by (number_of r) lines))) [
        | inl e ↦
            let refused =
              All-sort_by_back (number_of r) _ lines (find-none (accepts r address) _ e) in
            inr (
              rw (e, validate_entry),
              λ q c. All-In _ lines refused (Covers-candidates r database username c),
            )
        | inr (p, e) ↦
            let sorted = sort_by-IsSorted (number_of r) lines in
            let first = find-IsSorted (number_of r) (accepts r address) _ sorted e in
            let least = All-sort_by_back (number_of r) _ lines first.1 in
            let member =
              All-find (λ q. In q lines) (accepts r address) _
                (All-sort_by (number_of r) _ lines (All-In_self lines lines (λ q i. i))) e in
            inl (
              p,
              rw (e, validate_entry),
              record {
                covering = candidates-Covers r database username member;
                accepting = first.0;
                least = λ q c. All-In _ lines least (Covers-candidates r database username c);
              },
            )
      ]
    where
      lines : List ℕ
      lines = candidates r database username
