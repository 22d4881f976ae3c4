-- ===== src/ConfigDrift/HostView.antt =====
-- pkg/dashboard/service/host_guc_drift.go, and `hostGucDriftCount` of guc_drift_snapshots.go: the
-- drift of one host. The store is a record of its answers, `none` being an error of the store.
use ciscollector_v.Common.{
  ℕ, ◌+◌, Bool, true, false, not, ◌&&◌, Option, none, some, List, [], ◌∷◌, ◌++◌, Text, lit, beq,
  trim_space, equal_fold, is_nil, count, ◌==◌, ltb, if◌then◌else◌,
}
use ciscollector_v.Common.Maps.{Map}
use ciscollector_v.ConfigDrift.Baseline.{
  drift_match, drift_diff, drift_missing, BaselineCompareRow, compare_against_baseline,
}
use ciscollector_v.ConfigDrift.Rows.{is_match}
use ciscollector_v.ConfigDrift.Snapshots.{
  GucSnapshotSummary, HostStatus, no_snapshot, matched, drifted, missing, GucDriftRow,
  guc_snapshot_host_label,
}

-- what `Service.Repo` answers: the baseline with its label, the settings of a target with its host,
-- and the stored snapshots
pub record Repo : Type 0 where
  pub get_guc_baseline : Option (Text × Map Text Text)
  pub get_server_guc_snapshot : Text → Option (Map Text Text × Text)
  pub list_server_guc_snapshots : Option (List GucSnapshotSummary)

pub data ViewStatus : Type 0 where
  no_baseline : ViewStatus
  of_host : HostStatus → ViewStatus

-- the results of `gucDriftRowsForHost`
pub record HostRows : Type 0 where
  pub rows : List GucDriftRow
  pub drift_count : ℕ
  pub missing_count : ℕ

-- `HostGucDriftView`
pub record HostGucDriftView : Type 0 where
  pub available : Bool
  pub status : ViewStatus
  pub baseline_label : Text
  pub drift_count : ℕ
  pub missing_count : ℕ
  pub rows : List GucDriftRow
  pub empty_reason : Text

-- the two searches of `resolveGucSnapshotTargetID`; both of the second's results are the same
unfoldable pub find_target : Text → Text → List GucSnapshotSummary → Text
unfolding guc_snapshot_host_label equal_fold beq
find_target server_id run_target_id [] = run_target_id
find_target server_id run_target_id (snap ∷ snaps) =
    if not (beq server_id []) && equal_fold (guc_snapshot_host_label snap) server_id
    then snap.target_id
    else find_target server_id run_target_id snaps

-- `resolveGucSnapshotTargetID`
unfoldable pub resolve_guc_snapshot_target_id : Option Repo → Text → Text → Text
unfolding find_target trim_space
resolve_guc_snapshot_target_id none server_id run_target_id = run_target_id
resolve_guc_snapshot_target_id (some repo) server_id run_target_id =
    elim repo.list_server_guc_snapshots [
      | none ↦ run_target_id
      | some snaps ↦ find_target (trim_space server_id) run_target_id snaps
    ]

module _ (host target_id : Text) where
  -- one row of the loop of `gucDriftRowsForHost`
  unfoldable pub add_host_row : BaselineCompareRow → HostRows → HostRows
  add_host_row row acc =
      let rows = acc.rows ++ record { host = host; target_id = target_id; row = row } ∷ [] in
      elim row.status [
        | drift_match ↦ acc
        | drift_diff ↦ record acc { rows = rows; drift_count = acc.drift_count + 1 }
        | drift_missing ↦ record acc { rows = rows; missing_count = acc.missing_count + 1 }
      ]

  unfoldable pub add_host_rows : List BaselineCompareRow → HostRows → HostRows
  unfolding add_host_row
  add_host_rows [] acc = acc
  add_host_rows (row ∷ rows) acc = add_host_rows rows (add_host_row row acc)

  -- `gucDriftRowsForHost`
  unfoldable pub guc_drift_rows_for_host : Map Text Text → Map Text Text → HostRows
  unfolding add_host_rows compare_against_baseline
  guc_drift_rows_for_host baseline live =
      add_host_rows (compare_against_baseline baseline live)
        (record { rows = []; drift_count = 0; missing_count = 0 })

-- a view without rows
abbrev pub blank_view : Bool → ViewStatus → Text → Text → HostGucDriftView
blank_view available status label reason = record {
  available = available;
  status = status;
  baseline_label = label;
  drift_count = 0;
  missing_count = 0;
  rows = [];
  empty_reason = reason;
}

-- the view of the rows of a host
unfoldable pub rows_view : Text → HostRows → HostGucDriftView
rows_view label found =
    let view : HostGucDriftView = record {
      available = true;
      status = of_host (if ltb 0 found.drift_count then drifted else missing);
      baseline_label = label;
      drift_count = found.drift_count;
      missing_count = found.missing_count;
      rows = found.rows;
      empty_reason = [];
    } in
    if found.drift_count == 0 && found.missing_count == 0
    then record view {
      status = of_host matched;
      empty_reason = lit "All baseline keys match live SHOW ALL.";
    }
    else view

module _ (server_id target_id label : Text) (baseline : Map Text Text) where
  -- the view once the snapshot has been read
  unfoldable pub snapshot_view : Option (Map Text Text × Text) → HostGucDriftView
  unfolding rows_view guc_drift_rows_for_host trim_space beq
  snapshot_view none =
      blank_view true (of_host no_snapshot) label (lit "Failed to load GUC snapshot.")
  snapshot_view (some (live, host)) =
      if is_nil live
      then blank_view true (of_host no_snapshot) label
          (lit "No SHOW ALL snapshot for this host yet.")
      else rows_view label (
          guc_drift_rows_for_host (if beq host [] then trim_space server_id else host) target_id
            baseline live)

-- the view once the baseline has been read; the target has no blanks at its ends
unfoldable pub baseline_view : Repo → Text → Text → Option (Text × Map Text Text) → HostGucDriftView
unfolding snapshot_view beq
baseline_view repo server_id target_id none =
    blank_view false no_baseline [] (lit "Failed to load baseline.")
baseline_view repo server_id target_id (some (label, baseline)) =
    if is_nil baseline
    then blank_view false no_baseline [] (lit "Upload a global baseline on the GUC drift page.")
    else if beq target_id []
    then blank_view true (of_host no_snapshot) label (lit "No SHOW ALL snapshot for this host yet.")
    else snapshot_view server_id target_id label baseline (repo.get_server_guc_snapshot target_id)

-- `buildHostGucDriftView`
unfoldable pub build_host_guc_drift_view : Option Repo → Text → Text → HostGucDriftView
unfolding baseline_view trim_space
build_host_guc_drift_view none server_id target_id =
    blank_view false no_baseline [] (lit "Database not configured.")
build_host_guc_drift_view (some repo) server_id target_id =
    baseline_view repo server_id (trim_space target_id) repo.get_guc_baseline

-- `fmt.Sprintf("%d", n)` is a parameter
module _ (decimal : ℕ → Text) where
  abbrev pub count_text : ℕ → Text
  count_text n = if n == 0 then lit "0" else decimal n

  unfoldable pub snapshot_count : Map Text Text → Option (Map Text Text × Text) → Text
  unfolding compare_against_baseline count
  snapshot_count baseline none = lit "-"
  snapshot_count baseline (some (live, host)) =
      if is_nil live
      then lit "-"
      else count_text
          (count (λ row. not (is_match row.status)) (compare_against_baseline baseline live))

  unfoldable pub baseline_count : Repo → Text → Option (Text × Map Text Text) → Text
  unfolding snapshot_count
  baseline_count repo target_id none = lit "-"
  baseline_count repo target_id (some (label, baseline)) =
      if is_nil baseline
      then lit "-"
      else snapshot_count baseline (repo.get_server_guc_snapshot target_id)

  -- `hostGucDriftCount`
  unfoldable pub host_guc_drift_count : Option Repo → Text → Text
  unfolding baseline_count beq
  host_guc_drift_count none target_id = lit "-"
  host_guc_drift_count (some repo) target_id =
      if beq target_id [] then lit "-" else baseline_count repo target_id repo.get_guc_baseline
