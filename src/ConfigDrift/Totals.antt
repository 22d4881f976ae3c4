-- ===== src/ConfigDrift/Totals.antt =====
-- guc_drift_snapshots.go: the totals of the drift report against its lists.
use ciscollector_v.Common.{
  ℕ, ◌+◌, ◌≡◌, refl, inl, inr, Bool, true, false, ◌&&◌, Option, some, List, [], ◌∷◌, ◌++◌, Text,
  is_nil, length, length-append, count, ◌==◌, ltb, if◌then◌else◌, arith, Bool-cases, All,
}
use ciscollector_v.Common.Maps.{Map}
use ciscollector_v.ConfigDrift.Baseline.{
  DriftStatus, drift_match, drift_diff, drift_missing, BaselineCompareRow, compare_against_baseline,
}
use ciscollector_v.ConfigDrift.Snapshots.{
  GucSnapshotSummary, HostStatus, no_snapshot, matched, drifted, missing, GucDriftHostSummary,
  GucDriftResponse, add_row, add_rows, close_host, new_summary, add_host, add_hosts, empty_response,
  guc_drift_from_snapshots,
}

abbrev pub is_matched : HostStatus → Bool
is_matched matched = true
is_matched _ = false

unfoldable pub total : (GucDriftHostSummary → ℕ) → List GucDriftHostSummary → ℕ
total f [] = 0
total f (s ∷ ss) = f s + total f ss

total-snoc :
    (f : GucDriftHostSummary → ℕ) (ss : List GucDriftHostSummary) (s : GucDriftHostSummary)
    → total f (ss ++ s ∷ []) ≡ total f ss + f s
unfolding total
total-snoc f [] s = omega arith
total-snoc f (t ∷ ss) s = omega (arith, total-snoc f ss s)

count-snoc :
    (p : GucDriftHostSummary → Bool) (ss : List GucDriftHostSummary) (s : GucDriftHostSummary)
    → count p (ss ++ s ∷ []) ≡ count p ss + (if p s then 1 else 0)
unfolding count
count-snoc p [] s = omega arith
count-snoc p (t ∷ ss) s = omega (arith, count-snoc p ss s)

-- What the totals are of the summaries and the rows; `drift` and `miss` are those of the host at
-- work, which has no summary yet, and `pending` is the number of such hosts.
pub record IsTotal (pending drift miss : ℕ) (resp : GucDriftResponse) : Type 0 where
  pub hosts : resp.hosts_compared ≡ length resp.host_summaries + pending
  pub drifts : resp.total_drifted ≡ total (λ s. s.drift_count) resp.host_summaries + drift
  pub misses : resp.total_missing ≡ total (λ s. s.missing_count) resp.host_summaries + miss
  pub rows : length resp.rows ≡ resp.total_drifted + resp.total_missing
  pub matches : resp.matched_servers ≡ count (λ s. is_matched s.status) resp.host_summaries
  pub drifting : resp.drifting_servers ≡ count (λ s. ltb 0 s.drift_count) resp.host_summaries
  pub missings : resp.missing_servers ≡ count (λ s. ltb 0 s.missing_count) resp.host_summaries

abbrev pub IsTotalAt : GucDriftHostSummary × GucDriftResponse → Type 0
IsTotalAt (s, resp) = IsTotal 1 s.drift_count s.missing_count resp

add_row-IsTotal :
    (row : BaselineCompareRow) (s : GucDriftHostSummary) (resp : GucDriftResponse)
    → IsTotalAt (s, resp)
    → IsTotalAt (add_row row (s, resp))
unfolding add_row
add_row-IsTotal row s resp h = go row.status refl
  where
    go : (d : DriftStatus) → row.status ≡ d → IsTotalAt (add_row row (s, resp))
    go drift_match e = rw (e, add_row) h
    go drift_diff e =
        rw (e, add_row)
          (record {
            hosts = h.hosts;
            drifts = omega (arith, h.drifts);
            misses = h.misses;
            rows = omega (arith, h.rows, length-append resp.rows);
            matches = h.matches;
            drifting = h.drifting;
            missings = h.missings;
          })
    go drift_missing e =
        rw (e, add_row)
          (record {
            hosts = h.hosts;
            drifts = h.drifts;
            misses = omega (arith, h.misses);
            rows = omega (arith, h.rows, length-append resp.rows);
            matches = h.matches;
            drifting = h.drifting;
            missings = h.missings;
          })

add_rows-IsTotal :
    (rows : List BaselineCompareRow) (acc : GucDriftHostSummary × GucDriftResponse)
    → IsTotalAt acc
    → IsTotalAt (add_rows rows acc)
unfolding add_rows
add_rows-IsTotal [] acc h = h
add_rows-IsTotal (row ∷ rows) acc h =
    add_rows-IsTotal rows (add_row row acc) (add_row-IsTotal row acc.0 acc.1 h)

-- one summary more, with the counts of the host at work
add_summary-IsTotal :
    (t : GucDriftHostSummary) (resp : GucDriftResponse) {a b c : ℕ}
    → IsTotalAt (t, resp)
    → a ≡ resp.matched_servers + (if is_matched t.status then 1 else 0)
    → b ≡ resp.drifting_servers + (if ltb 0 t.drift_count then 1 else 0)
    → c ≡ resp.missing_servers + (if ltb 0 t.missing_count then 1 else 0)
    → IsTotal 0 0 0 (record resp {
      matched_servers = a;
      drifting_servers = b;
      missing_servers = c;
      host_summaries = resp.host_summaries ++ t ∷ [];
    })
add_summary-IsTotal t resp h a b c = record {
  hosts = omega (arith, h.hosts, length-append resp.host_summaries (t ∷ []));
  drifts = omega (arith, h.drifts, total-snoc (λ s. s.drift_count) resp.host_summaries t);
  misses = omega (arith, h.misses, total-snoc (λ s. s.missing_count) resp.host_summaries t);
  rows = h.rows;
  matches =
      omega (arith, h.matches, count-snoc (λ s. is_matched s.status) resp.host_summaries t, a);
  drifting =
      omega (arith, h.drifting, count-snoc (λ s. ltb 0 s.drift_count) resp.host_summaries t, b);
  missings =
      omega (arith, h.missings, count-snoc (λ s. ltb 0 s.missing_count) resp.host_summaries t, c);
}

is_matched-if : (b : Bool) → is_matched (if b then drifted else missing) ≡ false
is_matched-if true = refl
is_matched-if false = refl

close_host-IsTotal :
    (s : GucDriftHostSummary) (resp : GucDriftResponse)
    → IsTotalAt (s, resp)
    → IsTotal 0 0 0 (close_host (s, resp))
unfolding close_host
close_host-IsTotal s resp h = elim (Bool-cases (s.drift_count == 0 && s.missing_count == 0)) [
  | inl e ↦
      rw (e, close_host)
        (add_summary-IsTotal (record s { status = matched }) resp h refl (ground arith)
          (ground arith))
  | inr e ↦
      let status = if ltb 0 s.drift_count then drifted else missing in
      rw (e, close_host)
        (add_summary-IsTotal (record s { status = status }) resp h
          (ground (arith, is_matched-if (ltb 0 s.drift_count))) refl refl)
]

module _ (get_server_guc_snapshot : Text → Option (Map Text Text)) (baseline : Map Text Text) where
  new_host :
      (resp : GucDriftResponse)
      → IsTotal 0 0 0 resp
      → IsTotal 1 0 0 (record resp { hosts_compared = resp.hosts_compared + 1 })
  new_host resp h = record {
    hosts = omega (arith, h.hosts);
    drifts = h.drifts;
    misses = h.misses;
    rows = h.rows;
    matches = h.matches;
    drifting = h.drifting;
    missings = h.missings;
  }

  add_host-IsTotal :
      (snap : GucSnapshotSummary) (resp : GucDriftResponse) {live : Map Text Text}
      → get_server_guc_snapshot snap.target_id ≡ some live
      → IsTotal 0 0 0 resp
      → (resp' : GucDriftResponse) × (add_host get_server_guc_snapshot baseline snap resp
          ≡ some resp')
        × IsTotal 0 0 0 resp'
  unfolding add_host
  add_host-IsTotal snap resp {live} e h = elim (Bool-cases (is_nil live)) [
    | inl t ↦ (
      record resp {
        hosts_compared = resp.hosts_compared + 1;
        host_summaries = resp.host_summaries ++ new_summary snap no_snapshot ∷ [];
      },
      rw (e, t) refl,
      add_summary-IsTotal (new_summary snap no_snapshot)
          (record resp { hosts_compared = resp.hosts_compared + 1 }) (new_host resp h) (omega arith)
          (omega arith) (omega arith),
    )
    | inr f ↦
        let start : GucDriftHostSummary × GucDriftResponse =
          (new_summary snap matched, record resp { hosts_compared = resp.hosts_compared + 1 }) in
        let final = add_rows (compare_against_baseline baseline live) start in
        (
          close_host final,
          rw (e, f) refl,
          close_host-IsTotal final.0 final.1
              (add_rows-IsTotal (compare_against_baseline baseline live) start (new_host resp h)),
        )
  ]

  add_hosts-IsTotal :
      (snaps : List GucSnapshotSummary) (resp : GucDriftResponse)
      → All
          (λ snap. (live : Map Text Text) × (get_server_guc_snapshot snap.target_id ≡ some live))
          snaps
      → IsTotal 0 0 0 resp
      → (resp' : GucDriftResponse) × (add_hosts get_server_guc_snapshot baseline snaps resp
          ≡ some resp')
        × IsTotal 0 0 0 resp'
  unfolding add_hosts
  add_hosts-IsTotal [] resp r h = (resp, refl, h)
  add_hosts-IsTotal (snap ∷ snaps) resp ((live, e), r) h =
      let (mid, one, ok) = add_host-IsTotal snap resp e h in
      let (last, rest, done) = add_hosts-IsTotal snaps mid r ok in (last, rw one rest, done)

  -- If the snapshot of every host can be read, then there is a report, and its totals are those of
  -- its lists: there is one summary for each host compared, the drifted and the missing settings
  -- are the sums of those of the summaries and together as many as the rows, the matched servers
  -- are the summaries with that status, and the drifting servers and those with missing settings
  -- are the summaries with such settings.
  pub guc_drift_from_snapshots-IsTotal :
      (snaps : List GucSnapshotSummary)
      → All
          (λ snap. (live : Map Text Text) × (get_server_guc_snapshot snap.target_id ≡ some live))
          snaps
      → (resp : GucDriftResponse) × (guc_drift_from_snapshots get_server_guc_snapshot baseline snaps
          ≡ some resp)
        × IsTotal 0 0 0 resp
  unfolding guc_drift_from_snapshots total count
  guc_drift_from_snapshots-IsTotal snaps r = elim (Bool-cases (is_nil baseline)) [
    | inl t ↦ (empty_response get_server_guc_snapshot baseline, rw t refl, empty)
    | inr f ↦
        let (resp, run, h) =
          add_hosts-IsTotal snaps (empty_response get_server_guc_snapshot baseline) r empty in
        (resp, rw f run, h)
  ]
    where
      empty : IsTotal 0 0 0 (empty_response get_server_guc_snapshot baseline)
      empty = record {
        hosts = refl;
        drifts = refl;
        misses = refl;
        rows = refl;
        matches = refl;
        drifting = refl;
        missings = refl;
      }
