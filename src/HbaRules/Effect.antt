-- ===== src/HbaRules/Effect.antt =====
-- hba_file_rule.go: what one log entry does to the report of unused lines.
use ciscollector_v.Common.{
  ℕ, ◌≡◌, refl, ap, ◌⊎◌, inl, inr, true, false, not, ◌&&◌, ◌||◌, none, some, List, [], ◌∷◌, Text,
  any, In, here, there, In-append_left, In-append_right, ◌==◌, ==_iff, beq, arith, Bool-cases,
}
use ciscollector_v.Common.Maps.{Map, lookup, text_eq}
use ciscollector_v.HbaRules.Defs.{
  HbaFileRule, or_empty, number_of, mark, accepts, found_matching_entry, lines_of_users, all_lines,
  validate_entry,
}
use ciscollector_v.HbaRules.Validate.{Covers, covers, IsFirst, validate_entry-IsFirst}
use ciscollector_v.HbaRules.Unused.{has_number, was_used, holds, report, holds-report}

In-lines_of_users :
    (u : Text) (users : Map Text (List ℕ)) {p : ℕ}
    → In p (or_empty (lookup u users))
    → In p (lines_of_users users)
unfolding lookup lines_of_users
In-lines_of_users u [] i = i
In-lines_of_users u ((v, ls) ∷ users) i = elim (Bool-cases (beq v u)) [
  | inl e ↦ In-append_left _ (rw e at i)
  | inr e ↦ In-append_right ls (In-lines_of_users u users (rw e at i))
]

In-all_lines :
    (d u : Text) (m : Map Text (Map Text (List ℕ))) {p : ℕ}
    → In p (elim (lookup d m) [ none ↦ [] | some users ↦ or_empty (lookup u users) ])
    → In p (all_lines m)
unfolding lookup all_lines
In-all_lines d u [] i = i
In-all_lines d u ((v, users) ∷ m) i = elim (Bool-cases (beq v d)) [
  | inl e ↦ In-append_left _ (In-lines_of_users u users (rw e at i))
  | inr e ↦ In-append_right (lines_of_users users) (In-all_lines d u m (rw e at i))
]

Covers-all_lines :
    {r : HbaFileRule} {database username : Text} {p : ℕ}
    → Covers r database username p
    → In p (all_lines r.m)
Covers-all_lines {r} (covers d u _ _ i) = In-all_lines d u r.m i

In-holds : (p : ℕ) (ps : List ℕ) → In p ps → holds p ps ≡ true
unfolding any
In-holds p [] i = elim i [ ]
In-holds p (q ∷ ps) (here e) = ground (arith, ==_iff q p)
In-holds p (q ∷ ps) (there i) = ground (arith, In-holds p ps i)

has_number-mark :
    (r : HbaFileRule) (p n : ℕ) (ps : List ℕ) → has_number (mark r p) n ps ≡ has_number r n ps
unfolding any found_matching_entry
has_number-mark r p n [] = refl
has_number-mark r p n (q ∷ ps) = elim (Bool-cases (q == p)) [
  | inl e ↦
      let same = ap (λ k. (r.heap k).line_number) ((==_iff q p).0 e) in
      ground (arith, has_number-mark r p n ps, same)
  | inr e ↦ ground (arith, has_number-mark r p n ps)
]

was_used-mark :
    (r : HbaFileRule) (p n : ℕ) (ps : List ℕ)
    → was_used (mark r p) n ps ≡ (was_used r n ps || (holds p ps && number_of r p == n))
unfolding any found_matching_entry
was_used-mark r p n [] = refl
was_used-mark r p n (q ∷ ps) = elim (Bool-cases (q == p)) [
  | inl e ↦
      let same = ap (λ k. (r.heap k).line_number) ((==_iff q p).0 e) in
      ground (arith, was_used-mark r p n ps, same)
  | inr e ↦ ground (arith, was_used-mark r p n ps)
]

module _ (database username address : Text) (r : HbaFileRule) where
  pub report-validate_entry :
      ((p : ℕ) × IsFirst database username address r p
        × ((n : ℕ)
            → holds n (report (validate_entry database username address r))
              ≡ (holds n (report r) && not (number_of r p == n))))
      ⊎ ((validate_entry database username address r ≡ r)
          × ((q : ℕ) → Covers r database username q → accepts r address q ≡ false))
  report-validate_entry = elim (validate_entry-IsFirst database username address r) [
    | inr unchanged ↦ inr unchanged
    | inl (p, e, first) ↦
        let member = In-holds p (all_lines r.m) (Covers-all_lines first.covering) in
        inl (
          p,
          first,
          λ n.
              rw (e, holds-report (mark r p) n, holds-report r n)
                (ground (
                  arith,
                  has_number-mark r p n (all_lines r.m),
                  was_used-mark r p n (all_lines r.m),
                )),
        )
  ]
