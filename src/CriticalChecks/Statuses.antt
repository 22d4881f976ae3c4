-- ===== src/CriticalChecks/Statuses.antt =====
-- critical_checks.go: the status of a critical check by the status that the scan wrote.
use ciscollector_v.Common.{
  ℕ, ◌≡◌, refl, ap, ◌∙◌, Bool, true, false, not, ◌&&◌, leb, ◌==◌, [], ◌∷◌, Text, lit, beq,
  trim_space, to_lower, lower, fold_case, equal_fold, arith,
}
use ciscollector_v.CriticalChecks.Settings.{CisResult, Tools}
use ciscollector_v.CriticalChecks.Resolve.{
  Resolved, resolve_by_id, resolved_text, normalize_critical_check_status,
  resolve_critical_from_cis, cis_status, status_or,
}

-- The scan wrote the word, in whatever case and with whatever space around it.
abbrev pub IsWord : Text → Text → Type 0
IsWord word status = to_lower (trim_space status) ≡ word

-- what a manual status becomes by the values that the result shows
abbrev pub manual_status : Resolved → Text
manual_status Resolved.passes = lit "Pass"
manual_status Resolved.fails = lit "Fail"
manual_status Resolved.unresolved = lit "Manual"

pass_stays : (resolved : Text) → status_or (lit "Pass") resolved ≡ lit "Pass"
unfolding status_or equal_fold
pass_stays resolved = refl

fail_stays : (resolved : Text) → status_or (lit "Fail") resolved ≡ lit "Fail"
unfolding status_or equal_fold
fail_stays resolved = refl

manual_gives_way : (r : Resolved) → status_or (lit "Manual") (resolved_text r) ≡ manual_status r
unfolding status_or equal_fold beq
manual_gives_way Resolved.passes = refl
manual_gives_way Resolved.fails = refl
manual_gives_way Resolved.unresolved = refl

normalize_pass : (s : Text) → IsWord (lit "pass") s → normalize_critical_check_status s ≡ lit "Pass"
unfolding normalize_critical_check_status beq
normalize_pass s e = rw e refl

normalize_fail : (s : Text) → IsWord (lit "fail") s → normalize_critical_check_status s ≡ lit "Fail"
unfolding normalize_critical_check_status beq
normalize_fail s e = rw e refl

normalize_manual :
    (s : Text) → IsWord (lit "manual") s → normalize_critical_check_status s ≡ lit "Manual"
unfolding normalize_critical_check_status beq
normalize_manual s e = rw e refl

normalize_unknown :
    (s : Text) → IsWord (lit "unknown") s → normalize_critical_check_status s ≡ lit "Manual"
unfolding normalize_critical_check_status beq
normalize_unknown s e = rw e refl

-- the small letters but i, which is also the lower case of U+0130
abbrev is_plain : ℕ → Bool
is_plain h = leb b'a' h && leb h b'z' && not (h == b'i')

fold_case-lower : (c h : ℕ) → is_plain h ≡ true → lower c ≡ h → fold_case c ≡ h
unfolding fold_case lower
fold_case-lower c h p e = ground arith

-- A text is no word that begins with another letter than the text does in lower case.
equal_fold-other :
    (h : ℕ) (rest : Text) (o : ℕ) (other s : Text)
    → is_plain h ≡ true
    → (h == fold_case o) ≡ false
    → to_lower s ≡ h ∷ rest
    → equal_fold s (o ∷ other) ≡ false
unfolding equal_fold beq
equal_fold-other h rest o other [] p apart e = cc
equal_fold-other h rest o other (c ∷ s) p apart e =
    let head : lower c ≡ h = cc in rw (fold_case-lower c h p head, apart) refl

module _ (tools : Tools) where
  undecided :
      (h : ℕ) (rest : Text) (id : ℕ) (r : CisResult)
      → is_plain h ≡ true
      → (h == b'p') ≡ false
      → (h == b'f') ≡ false
      → IsWord (h ∷ rest) r.status
      → resolve_critical_from_cis tools id r ≡ resolved_text (resolve_by_id tools id r)
  unfolding resolve_critical_from_cis fold_case
  undecided h rest id r plain p f e =
      rw
        (
          equal_fold-other h rest b'P' (lit "ass") (trim_space r.status) plain p e,
          equal_fold-other h rest b'F' (lit "ail") (trim_space r.status) plain f e,
        )
        refl

  pub cis_status_pass :
      (id : ℕ) (r : CisResult) → IsWord (lit "pass") r.status → cis_status tools id r ≡ lit "Pass"
  unfolding cis_status
  cis_status_pass id r e =
      ap (λ s. status_or s (resolve_critical_from_cis tools id r)) (normalize_pass r.status e)
      ∙ pass_stays (resolve_critical_from_cis tools id r)

  pub cis_status_fail :
      (id : ℕ) (r : CisResult) → IsWord (lit "fail") r.status → cis_status tools id r ≡ lit "Fail"
  unfolding cis_status
  cis_status_fail id r e =
      ap (λ s. status_or s (resolve_critical_from_cis tools id r)) (normalize_fail r.status e)
      ∙ fail_stays (resolve_critical_from_cis tools id r)

  pub cis_status_manual :
      (id : ℕ) (r : CisResult)
      → IsWord (lit "manual") r.status
      → cis_status tools id r ≡ manual_status (resolve_by_id tools id r)
  unfolding cis_status
  cis_status_manual id r e =
      rw (normalize_manual r.status e, undecided b'm' (lit "anual") id r refl refl refl e)
        (manual_gives_way (resolve_by_id tools id r))

  pub cis_status_unknown :
      (id : ℕ) (r : CisResult)
      → IsWord (lit "unknown") r.status
      → cis_status tools id r ≡ manual_status (resolve_by_id tools id r)
  unfolding cis_status
  cis_status_unknown id r e =
      rw (normalize_unknown r.status e, undecided b'u' (lit "nknown") id r refl refl refl e)
        (manual_gives_way (resolve_by_id tools id r))
