-- ===== src/LogParser/HbaLines.antt =====
-- `HbaUnusedLineParser` of parse.go: what a log does to the report of unused lines.
use ciscollector_v.Common.{
  ℕ, ◌≡◌, refl, inl, inr, false, not, ◌&&◌, Option, none, some, List, [], ◌∷◌, Text, All, arith,
}
use ciscollector_v.HbaRules.Defs.{HbaFileRule, validate_entry}
use ciscollector_v.HbaRules.Unused.{holds, report}
use ciscollector_v.HbaRules.Effect.{report-validate_entry}
use ciscollector_v.LogParser.ParsedData.{ParsedData, get_user, get_host, get_database}
use ciscollector_v.LogParser.Feeds.{
  PgSettings, Patterns, IsComplete, value_or_message, value_or_message-IsComplete, hba_unused_feed,
  feed_all,
}

-- No number is in the second report and not in the first.
abbrev pub Shrinks : HbaFileRule → HbaFileRule → Type 0
Shrinks r r' = (n : ℕ) → (holds n (report r') && not (holds n (report r))) ≡ false

Shrinks-self : (r : HbaFileRule) → Shrinks r r
Shrinks-self r n = ground arith

Shrinks-Shrinks : (r s t : HbaFileRule) → Shrinks r s → Shrinks s t → Shrinks r t
Shrinks-Shrinks r s t h k n = ground (arith, h n, k n)

validate_entry-Shrinks : (db u h : Text) (r : HbaFileRule) → Shrinks r (validate_entry db u h r)
validate_entry-Shrinks db u h r = elim (report-validate_entry db u h r) [
  | inr (same, _) ↦ rw same (Shrinks-self r)
  | inl (p, _, after) ↦ λ n. ground (arith, after n)
]

module _ {Time : Type 0} (cnf : PgSettings) (patterns : Patterns) where
  hba_unused_feed-Shrinks :
      (r : HbaFileRule) (d : ParsedData Time)
      → IsComplete d
      → (r' : HbaFileRule) × (hba_unused_feed cnf patterns r d ≡ some r') × Shrinks r r'
  unfolding hba_unused_feed
  hba_unused_feed-Shrinks r d c =
      let (user, eu) =
        value_or_message-IsComplete cnf patterns (get_user d) patterns.connection_authorized 3 d
          c in
      let (host, eh) =
        value_or_message-IsComplete cnf patterns (get_host d) patterns.connection_received 3 d c in
      let (db, ed) =
        value_or_message-IsComplete cnf patterns (get_database d) patterns.connection_authorized 5 d
          c in
      go user host db eu eh ed
    where
      go :
          (user host db : Option Text)
          → value_or_message cnf patterns (get_user d) patterns.connection_authorized 3 d
            ≡ some user
          → value_or_message cnf patterns (get_host d) patterns.connection_received 3 d ≡ some host
          → value_or_message cnf patterns (get_database d) patterns.connection_authorized 5 d
            ≡ some db
          → (r' : HbaFileRule) × (hba_unused_feed cnf patterns r d ≡ some r') × Shrinks r r'
      go none host db eu eh ed = (r, rw eu refl, Shrinks-self r)
      go (some u) none db eu eh ed = (r, rw (eu, eh) refl, Shrinks-self r)
      go (some u) (some h) none eu eh ed = (r, rw (eu, eh, ed) refl, Shrinks-self r)
      go (some u) (some h) (some db) eu eh ed =
          (validate_entry db u h r, rw (eu, eh, ed) refl, validate_entry-Shrinks db u h r)

  -- If every line of a log has a description, then the parser takes them all, and a line that it
  -- reports as unused at the end was reported as unused at the start: no log entry makes a line
  -- unused again.
  pub hba_unused_feed-report :
      (ds : List (ParsedData Time)) (r : HbaFileRule)
      → All IsComplete ds
      → (r' : HbaFileRule) × (feed_all (hba_unused_feed cnf patterns) r ds ≡ some r') × Shrinks r r'
  unfolding feed_all
  hba_unused_feed-report [] r c = (r, refl, Shrinks-self r)
  hba_unused_feed-report (d ∷ ds) r (c, cs) =
      let (mid, one, first) = hba_unused_feed-Shrinks r d c in
      let (r', rest, later) = hba_unused_feed-report ds mid cs in
      (r', rw one rest, Shrinks-Shrinks r mid r' first later)
