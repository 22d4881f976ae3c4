-- ===== src/ConfigDrift/HostFleet.antt =====
-- host_guc_drift.go against guc_drift_snapshots.go: the view of a host and the report for the fleet.
use mathlib.Core.List.{append_assoc, append-nil}
use ciscollector_v.Common.{
  ℕ, ◌+◌, ◌≡◌, refl, sym, ap, inl, inr, false, not, ◌&&◌, Option, some, List, [], ◌∷◌, ◌++◌, map,
  Text, beq, trim_space, is_nil, count, ◌==◌, ltb, if◌then◌else◌, arith, Bool-cases,
}
use ciscollector_v.Common.Options.{◌>>=◌}
use ciscollector_v.Common.Maps.{Map}
use ciscollector_v.ConfigDrift.Baseline.{
  DriftStatus, drift_match, drift_diff, drift_missing, BaselineCompareRow, compare_against_baseline,
}
use ciscollector_v.ConfigDrift.Rows.{is_match}
use ciscollector_v.ConfigDrift.Snapshots.{
  GucSnapshotSummary, HostStatus, matched, drifted, missing, GucDriftHostSummary, GucDriftRow,
  GucDriftResponse, add_row, add_rows, close_host, new_summary, add_host, guc_snapshot_host_label,
}
use ciscollector_v.ConfigDrift.HostView.{
  Repo, of_host, HostRows, HostGucDriftView, add_host_row, add_host_rows, guc_drift_rows_for_host,
  rows_view, snapshot_view, baseline_view, build_host_guc_drift_view, count_text, snapshot_count,
  baseline_count, host_guc_drift_count,
}

abbrev pub compared : List GucDriftRow → List BaselineCompareRow
compared rows = map (λ r. r.row) rows

compared-snoc :
    (rows : List GucDriftRow) (r : GucDriftRow)
    → compared (rows ++ r ∷ []) ≡ compared rows ++ r.row ∷ []
compared-snoc [] r = refl
compared-snoc (s ∷ rows) r = ap (λ xs. s.row ∷ xs) (compared-snoc rows r)

-- The loop of the fleet's report, begun on `base`, is as far as that of the view.
record IsSame (start : GucDriftHostSummary) (base : GucDriftResponse)
    (acc : GucDriftHostSummary × GucDriftResponse) (found : HostRows) : Type 0 where
  summary :
      acc.0 ≡ record start { drift_count = found.drift_count; missing_count = found.missing_count }
  summaries : acc.1.host_summaries ≡ base.host_summaries
  rows : compared acc.1.rows ≡ compared base.rows ++ compared found.rows

snoc-IsSame :
    (fleet base found : List GucDriftRow) (r s : GucDriftRow)
    → r.row ≡ s.row
    → compared fleet ≡ compared base ++ compared found
    → compared (fleet ++ r ∷ []) ≡ compared base ++ compared (found ++ s ∷ [])
snoc-IsSame fleet base found r s e h =
    rw (compared-snoc fleet r, compared-snoc found s, h, e)
      (append_assoc (compared base) (compared found) (s.row ∷ []))

add_row-IsSame :
    (host target_id : Text) (start : GucDriftHostSummary) (base : GucDriftResponse)
    (row : BaselineCompareRow) (acc : GucDriftHostSummary × GucDriftResponse) (found : HostRows)
    → IsSame start base acc found
    → IsSame start base (add_row row acc) (add_host_row host target_id row found)
unfolding add_row add_host_row
add_row-IsSame host target_id start base row (s, resp) found h = go row.status refl
  where
    go :
        (d : DriftStatus)
        → row.status ≡ d
        → IsSame start base (add_row row (s, resp)) (add_host_row host target_id row found)
    go drift_match e = rw (e, add_row, add_host_row) h
    go drift_diff e =
        rw (e, add_row, add_host_row)
          (record {
            summary =
                ap {A = GucDriftHostSummary} (λ t. record t { drift_count = t.drift_count + 1 })
                  h.summary;
            summaries = h.summaries;
            rows = snoc-IsSame resp.rows base.rows found.rows _ _ refl h.rows;
          })
    go drift_missing e =
        rw (e, add_row, add_host_row)
          (record {
            summary =
                ap {A = GucDriftHostSummary} (λ t. record t { missing_count = t.missing_count + 1 })
                  h.summary;
            summaries = h.summaries;
            rows = snoc-IsSame resp.rows base.rows found.rows _ _ refl h.rows;
          })

add_rows-IsSame :
    (host target_id : Text) (start : GucDriftHostSummary) (base : GucDriftResponse)
    (rows : List BaselineCompareRow) (acc : GucDriftHostSummary × GucDriftResponse)
    (found : HostRows)
    → IsSame start base acc found
    → IsSame start base (add_rows rows acc) (add_host_rows host target_id rows found)
unfolding add_rows add_host_rows
add_rows-IsSame host target_id start base [] acc found h = h
add_rows-IsSame host target_id start base (row ∷ rows) acc found h =
    add_rows-IsSame host target_id start base rows (add_row row acc)
      (add_host_row host target_id row found)
      (add_row-IsSame host target_id start base row acc found h)

-- the counts of the view, and the deviations among the rows
add_host_row-count :
    (host target_id : Text) (row : BaselineCompareRow) (found : HostRows)
    → (add_host_row host target_id row found).drift_count
        + (add_host_row host target_id row found).missing_count
      ≡ found.drift_count + found.missing_count + (if not (is_match row.status) then 1 else 0)
unfolding add_host_row
add_host_row-count host target_id row found = go row.status refl
  where
    go :
        (d : DriftStatus)
        → row.status ≡ d
        → (add_host_row host target_id row found).drift_count
            + (add_host_row host target_id row found).missing_count
          ≡ found.drift_count + found.missing_count + (if not (is_match row.status) then 1 else 0)
    go drift_match e = rw (e, add_host_row) (omega arith)
    go drift_diff e = rw (e, add_host_row) (omega arith)
    go drift_missing e = rw (e, add_host_row) (omega arith)

add_host_rows-count :
    (host target_id : Text) (rows : List BaselineCompareRow) (found : HostRows)
    → (add_host_rows host target_id rows found).drift_count
        + (add_host_rows host target_id rows found).missing_count
      ≡ found.drift_count + found.missing_count + count (λ row. not (is_match row.status)) rows
unfolding add_host_rows count
add_host_rows-count host target_id [] found = omega arith
add_host_rows-count host target_id (row ∷ rows) found = omega (
  arith,
  add_host_rows-count host target_id rows (add_host_row host target_id row found),
  add_host_row-count host target_id row found,
)

rows_view-count :
    (label : Text) (found : HostRows)
    → (rows_view label found).drift_count + (rows_view label found).missing_count
      ≡ found.drift_count + found.missing_count
unfolding rows_view
rows_view-count label found =
    elim (Bool-cases (found.drift_count == 0 && found.missing_count == 0)) [
      | inl e ↦ rw e refl
      | inr e ↦ rw e refl
    ]

-- What the fleet's report gains by the host is what its view shows.
pub record IsShown (snap : GucSnapshotSummary) (base resp : GucDriftResponse)
    (view : HostGucDriftView) : Type 0 where
  pub host_status : HostStatus
  pub status : view.status ≡ of_host host_status
  pub summaries :
      resp.host_summaries
      ≡ base.host_summaries
        ++ record {
          host = guc_snapshot_host_label snap;
          target_id = snap.target_id;
          status = host_status;
          drift_count = view.drift_count;
          missing_count = view.missing_count;
        }
          ∷ []
  pub rows : compared resp.rows ≡ compared base.rows ++ compared view.rows

close_host-IsShown :
    (snap : GucSnapshotSummary) (base : GucDriftResponse)
    (acc : GucDriftHostSummary × GucDriftResponse) (label : Text) (found : HostRows)
    → IsSame (new_summary snap matched) base acc found
    → IsShown snap base (close_host acc) (rows_view label found)
unfolding close_host rows_view
close_host-IsShown snap base (s, resp) label found h =
    elim (Bool-cases (found.drift_count == 0 && found.missing_count == 0)) [
      | inl e ↦
          rw (h.summary, close_host, rows_view, e)
            (record {
              host_status = matched;
              status = refl;
              summaries = rw h.summaries refl;
              rows = h.rows;
            })
      | inr e ↦
          rw (h.summary, close_host, rows_view, e)
            (record {
              host_status = if ltb 0 found.drift_count then drifted else missing;
              status = refl;
              summaries = rw h.summaries refl;
              rows = h.rows;
            })
    ]

-- The settings of a target in the store, without its host.
abbrev pub settings_of_target : Repo → Text → Option (Map Text Text)
settings_of_target repo target_id = do p ← repo.get_server_guc_snapshot target_id; some p.0

module _ (decimal : ℕ → Text) (repo : Repo) {label host : Text} {baseline live : Map Text Text}
    (snap : GucSnapshotSummary) (stored_baseline : repo.get_guc_baseline ≡ some (label, baseline))
    (stored_live : repo.get_server_guc_snapshot snap.target_id ≡ some (live, host))
    (some_baseline : is_nil baseline ≡ false) (some_live : is_nil live ≡ false)
    (trimmed : trim_space snap.target_id ≡ snap.target_id)
    (some_target : beq snap.target_id [] ≡ false) where
  build_host_guc_drift_view-rows :
      (server_id : Text)
      → build_host_guc_drift_view (some repo) server_id snap.target_id
        ≡ rows_view label (
            guc_drift_rows_for_host
              (if beq host [] then trim_space server_id else host)
              snap.target_id
              baseline
              live)
  unfolding build_host_guc_drift_view baseline_view snapshot_view
  build_host_guc_drift_view-rows server_id =
      rw (trimmed, stored_baseline, some_baseline, some_target, stored_live, some_live) refl

  -- If the baseline and the snapshot of a target are stored and not empty, and its name is not
  -- empty and has no blanks at its ends, then the fleet's loop has a result for the target that
  -- adds to its report one summary, with the status and both counts that the host's view shows,
  -- and the comparisons of the view's rows in their order; and the count that the list of the hosts
  -- shows is the sum of the two counts of the view.
  pub build_host_guc_drift_view-fleet :
      (server_id : Text) (base : GucDriftResponse)
      → (resp : GucDriftResponse) × (add_host (settings_of_target repo) baseline snap base
          ≡ some resp)
        × IsShown snap base resp (build_host_guc_drift_view (some repo) server_id snap.target_id)
        × (host_guc_drift_count decimal (some repo) snap.target_id
            ≡ count_text decimal (
                (build_host_guc_drift_view (some repo) server_id snap.target_id).drift_count
                + (build_host_guc_drift_view (some repo) server_id snap.target_id).missing_count))
  unfolding add_host host_guc_drift_count baseline_count snapshot_count guc_drift_rows_for_host
  build_host_guc_drift_view-fleet server_id base =
      let start : GucDriftHostSummary × GucDriftResponse =
        (new_summary snap matched, record base { hosts_compared = base.hosts_compared + 1 }) in
      let shown = if beq host [] then trim_space server_id else host in
      let rows = compare_against_baseline baseline live in
      let nothing : HostRows = record { rows = []; drift_count = 0; missing_count = 0 } in
      let same : IsSame (new_summary snap matched) base start nothing = record {
        summary = refl;
        summaries = refl;
        rows = sym (append-nil (compared base.rows));
      } in
      let found = add_host_rows shown snap.target_id rows nothing in
      let counted : count (λ row. not (is_match row.status)) rows
          ≡ found.drift_count + found.missing_count =
        omega (arith, add_host_rows-count shown snap.target_id rows nothing) in
      (
        close_host (add_rows rows start),
        rw (stored_live, some_live) refl,
        rw (build_host_guc_drift_view-rows server_id) (
            close_host-IsShown snap base (add_rows rows start) label found (
              add_rows-IsSame shown snap.target_id (new_summary snap matched) base rows start
                nothing same)),
        rw
            (
              build_host_guc_drift_view-rows server_id,
              some_target,
              stored_baseline,
              some_baseline,
              stored_live,
              some_live,
              rows_view-count label found,
            )
            (ap (count_text decimal) counted),
      )
