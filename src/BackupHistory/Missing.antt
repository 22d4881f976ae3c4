-- ===== src/BackupHistory/Missing.antt =====
-- cmd/ciscollector/backuphistory.go: the report of the missing backups, and whether it comes.
use ciscollector_v.Common.{
  ℕ, ◌+◌, ◌≤◌, ◌<◌, ◌≡◌, ◌≢◌, ◌↔◌, refl, inr, some, List, [], ◌∷◌, map, All, In, arith, Text,
}
use ciscollector_v.Common.Sorting.{
  IsSorted, sort_by, sort_by-IsSorted, All-sort_by_back, All-sort_by, Increasing,
}
use ciscollector_v.BackupHistory.Defs.{
  Clock, Pace, Run, newest, output, report_at, report_sorted, report, pace_of,
}
use ciscollector_v.BackupHistory.Gaps.{
  gaps, last_of, IsAscending, gaps-In, In-gaps, gaps-Increasing,
}
use ciscollector_v.BackupHistory.Walk.{IsNumbered, missing_from_lem, unique_onto-Increasing}

module _ {Time : Type 0} (c : Clock Time) where
  IsAscending-IsSorted :
      (number : Time → ℕ)
      → ((t u : Time) → c.instant t ≤ c.instant u → number t ≤ number u)
      → (t : Time) (us : List Time) → IsSorted c.instant (t ∷ us)
      → IsAscending (number t) (map number us)
  IsAscending-IsSorted number mono t [] h = tt
  IsAscending-IsSorted number mono t (u ∷ us) h =
      (mono t u h.0.0, IsAscending-IsSorted number mono u us h.1)

  last_of-newest :
      (number : Time → ℕ) (t : Time) (us : List Time)
      → last_of (number t) (map number us) ≡ number (newest c t us)
  last_of-newest number t [] = refl
  last_of-newest number t (u ∷ us) = last_of-newest number u us

  All-map :
      (P : ℕ → Type 0) (number : Time → ℕ) (us : List Time)
      → All P (map number us) ↔ All (λ u. P (number u)) us
  All-map P number [] = ((λ h. tt), λ h. tt)
  All-map P number (u ∷ us) =
      let r = All-map P number us in ((λ h. (h.0, r.0 h.1)), λ h. (h.0, r.1 h.1))

  -- The missing numbers: those between the oldest and the newest backup that no backup has, in
  -- rising order.
  abbrev pub AreMissing : (Time → ℕ) → Time → Time → List Time → List ℕ → Type 0
  AreMissing number oldest last backups missing =
      Increasing missing
      × ((n : ℕ)
          → In n missing
            ↔ ((number oldest < n) × (n < number last) × All (λ b. number b ≢ n) backups))

  gaps-AreMissing :
      (number : Time → ℕ) (backups : List Time) (t : Time) (us : List Time)
      → sort_by c.instant backups ≡ t ∷ us
      → IsAscending (number t) (map number us)
      → AreMissing number t (newest c t us) backups (gaps (number t) (map number us))
  gaps-AreMissing number backups t us sorted h = (
    gaps-Increasing (number t) (map number us) h,
    λ n. (
      (λ i.
          let (lo, hi, out) = gaps-In n (number t) (map number us) h i in
          let all : All (λ b. number b ≢ n) (t ∷ us) =
            ((λ e. omega arith), (All-map _ number us).0 out) in
          let back : All (λ b. number b ≢ n) (sort_by c.instant backups) = rw sorted all in
          (lo, rw (last_of-newest number t us) at hi, All-sort_by_back c.instant _ backups back)),
      λ b.
          let all : All (λ b. number b ≢ n) (sort_by c.instant backups) =
            All-sort_by c.instant _ backups b.2 in
          let split : All (λ b. number b ≢ n) (t ∷ us) = rw sorted at all in
          In-gaps n (number t) (map number us) h b.0 (rw (last_of-newest number t us) b.1)
            ((All-map _ number us).1 split.1),
    ),
  )

  module _ (p : Pace Time) (number : Time → ℕ) (text : ℕ → Text) (Fine : Time → Type 0)
      (law : IsNumbered p number text Fine) where
    pub report_at_lem :
        (fuel : ℕ) (frequency : Text) (t : Time) (us : List Time)
        → All Fine (t ∷ us)
        → IsAscending (number t) (map number us)
        → number (newest c t us) < number t + fuel
        → report_at c (some p) fuel frequency t us
          ≡ some (
              Run.reported (record {
                missing_dates = map text (gaps (number t) (map number us));
                start_date = c.date_only t;
                end_date = c.date_only (newest c t us);
                backup_frequency = frequency;
              }))
    unfolding report_at output
    report_at_lem fuel frequency t us f asc lt =
        let walked =
          missing_from_lem p number text Fine law fuel t us [] f asc
            (rw (last_of-newest number t us) lt) in
        let unique =
          unique_onto-Increasing text law.text_inj [] (gaps (number t) (map number us)) tt
            (gaps-Increasing (number t) (map number us) asc) in
        rw (walked, unique) refl

    -- The report of a pace whose dates are numbered in the order of the instants.
    pub report_lem :
        (mono : (t u : Time) → c.instant t ≤ c.instant u → number t ≤ number u) (fuel : ℕ)
        (frequency : Text) (backups : List Time) (t u : Time) (us : List Time)
        → pace_of c frequency ≡ some p
        → sort_by c.instant backups ≡ t ∷ u ∷ us
        → All Fine backups
        → number (newest c u us) < number t + fuel
        → (missing : List ℕ) × (report c fuel frequency (inr backups)
            ≡ some (
                Run.reported (record {
                  missing_dates = map text missing;
                  start_date = c.date_only t;
                  end_date = c.date_only (newest c u us);
                  backup_frequency = frequency;
                })))
          × AreMissing number t (newest c u us) backups missing
    unfolding report report_sorted
    report_lem mono fuel frequency backups t u us paced sorted f lt =
        let whole : IsSorted c.instant (sort_by c.instant backups) =
          sort_by-IsSorted c.instant backups in
        let is_sorted : IsSorted c.instant (t ∷ u ∷ us) = rw sorted at whole in
        let all : All Fine (sort_by c.instant backups) = All-sort_by c.instant Fine backups f in
        let fine : All Fine (t ∷ u ∷ us) = rw sorted at all in
        let asc = IsAscending-IsSorted number mono t (u ∷ us) is_sorted in
        (
          gaps (number t) (map number (u ∷ us)),
          rw (sorted, paced) (report_at_lem fuel frequency t (u ∷ us) fine asc lt),
          gaps-AreMissing number backups t (u ∷ us) sorted asc,
        )
