-- ===== src/ConfigDrift/Snapshots.antt =====
-- pkg/dashboard/service/guc_drift_snapshots.go: the drift report for the fleet. The stored
-- snapshots are read through a function, whose `none` is an error of the store.
use ciscollector_v.Common.{
  ℕ, ◌+◌, ◌&&◌, Option, some, List, [], ◌∷◌, ◌++◌, Text, beq, trim_space, is_nil, length, ◌==◌, ltb,
  if◌then◌else◌,
}
use ciscollector_v.Common.Options.{◌>>=◌}
use ciscollector_v.Common.Maps.{Map}
use ciscollector_v.ConfigDrift.Baseline.{
  drift_match, drift_diff, drift_missing, BaselineCompareRow, compare_against_baseline,
}

-- `reportstore.GucSnapshotSummary`
pub record GucSnapshotSummary : Type 0 where
  pub target_id : Text
  pub target_host : Text

pub data HostStatus : Type 0 where
  no_snapshot : HostStatus
  matched : HostStatus
  drifted : HostStatus
  missing : HostStatus

-- `GucDriftHostSummary`
pub record GucDriftHostSummary : Type 0 where
  pub host : Text
  pub target_id : Text
  pub status : HostStatus
  pub drift_count : ℕ
  pub missing_count : ℕ

-- `GucDriftRow`
pub record GucDriftRow : Type 0 where
  pub host : Text
  pub target_id : Text
  pub row : BaselineCompareRow

-- `GucDriftStats` and the two lists of `GucDriftResponse`
pub record GucDriftResponse : Type 0 where
  pub baseline_keys : ℕ
  pub hosts_compared : ℕ
  pub total_drifted : ℕ
  pub total_missing : ℕ
  pub matched_servers : ℕ
  pub drifting_servers : ℕ
  pub missing_servers : ℕ
  pub host_summaries : List GucDriftHostSummary
  pub rows : List GucDriftRow

-- `gucSnapshotHostLabel`
unfoldable pub guc_snapshot_host_label : GucSnapshotSummary → Text
unfolding trim_space beq
guc_snapshot_host_label s =
    if beq (trim_space s.target_host) [] then s.target_id else trim_space s.target_host

abbrev pub row_of : GucDriftHostSummary → BaselineCompareRow → GucDriftRow
row_of s row = record { host = s.host; target_id = s.target_id; row = row }

-- one row of the inner loop
unfoldable pub add_row :
    BaselineCompareRow
    → GucDriftHostSummary × GucDriftResponse
    → GucDriftHostSummary × GucDriftResponse
add_row row (s, resp) = elim row.status [
  | drift_match ↦ (s, resp)
  | drift_diff ↦ (
    record s { drift_count = s.drift_count + 1 },
    record resp { total_drifted = resp.total_drifted + 1; rows = resp.rows ++ row_of s row ∷ [] },
  )
  | drift_missing ↦ (
    record s { missing_count = s.missing_count + 1 },
    record resp { total_missing = resp.total_missing + 1; rows = resp.rows ++ row_of s row ∷ [] },
  )
]

unfoldable pub add_rows :
    List BaselineCompareRow
    → GucDriftHostSummary × GucDriftResponse
    → GucDriftHostSummary × GucDriftResponse
unfolding add_row
add_rows [] acc = acc
add_rows (row ∷ rows) acc = add_rows rows (add_row row acc)

-- what follows the inner loop
unfoldable pub close_host : GucDriftHostSummary × GucDriftResponse → GucDriftResponse
close_host (s, resp) =
    if s.drift_count == 0 && s.missing_count == 0
    then record resp {
      matched_servers = resp.matched_servers + 1;
      host_summaries = resp.host_summaries ++ record s { status = matched } ∷ [];
    }
    else record resp {
      drifting_servers = resp.drifting_servers + (if ltb 0 s.drift_count then 1 else 0);
      missing_servers = resp.missing_servers + (if ltb 0 s.missing_count then 1 else 0);
      host_summaries =
          resp.host_summaries
          ++ record s { status = if ltb 0 s.drift_count then drifted else missing } ∷ [];
    }

abbrev pub new_summary : GucSnapshotSummary → HostStatus → GucDriftHostSummary
new_summary snap status = record {
  host = guc_snapshot_host_label snap;
  target_id = snap.target_id;
  status = status;
  drift_count = 0;
  missing_count = 0;
}

module _ (get_server_guc_snapshot : Text → Option (Map Text Text)) (baseline : Map Text Text) where
  -- one pass of the loop
  unfoldable pub add_host : GucSnapshotSummary → GucDriftResponse → Option GucDriftResponse
  unfolding add_rows close_host compare_against_baseline guc_snapshot_host_label
  add_host snap resp = do
    live ← get_server_guc_snapshot snap.target_id
    some (
        if is_nil live
        then record resp {
          hosts_compared = resp.hosts_compared + 1;
          host_summaries = resp.host_summaries ++ new_summary snap no_snapshot ∷ [];
        }
        else close_host (
            add_rows (compare_against_baseline baseline live)
              (new_summary snap matched, record resp { hosts_compared = resp.hosts_compared + 1 })))

  unfoldable pub add_hosts : List GucSnapshotSummary → GucDriftResponse → Option GucDriftResponse
  unfolding add_host
  add_hosts [] resp = some resp
  add_hosts (snap ∷ snaps) resp = do resp' ← add_host snap resp; add_hosts snaps resp'

  abbrev pub empty_response : GucDriftResponse
  empty_response = record {
    baseline_keys = length baseline;
    hosts_compared = 0;
    total_drifted = 0;
    total_missing = 0;
    matched_servers = 0;
    drifting_servers = 0;
    missing_servers = 0;
    host_summaries = [];
    rows = [];
  }

  -- `gucDriftFromSnapshots`, after the baseline and the list of the snapshots have been read
  unfoldable pub guc_drift_from_snapshots : List GucSnapshotSummary → Option GucDriftResponse
  unfolding add_hosts
  guc_drift_from_snapshots snapshots =
      if is_nil baseline then some empty_response else add_hosts snapshots empty_response
