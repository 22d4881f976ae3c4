-- ===== src/ConfigDrift/Tests.antt =====
-- A baseline of three settings and two servers.
use ciscollector_v.Common.{
  ◌+◌, keep, ◌≡◌, refl, Bool, not, Option, some, List, [], ◌∷◌, Text, lit, map, count, beq,
  trim_space,
}
use ciscollector_v.Common.Maps.{Map, lookup, text_eq}
use ciscollector_v.ConfigDrift.Baseline.{compare_against_baseline, keys_of}
use ciscollector_v.ConfigDrift.Values.{IsOrdered}
use ciscollector_v.ConfigDrift.Rows.{is_match, agrees, compare_against_baseline-rows}
use ciscollector_v.ConfigDrift.Servers.{
  ConfigSetting, ConfigCompareOne2OneResult, compare_all_servers_with_base, same_values, is_some,
  differs_under, compare_all_servers_with_base-split,
}
use ciscollector_v.ConfigDrift.Snapshots.{
  GucSnapshotSummary, GucDriftResponse, add_host, empty_response, guc_drift_from_snapshots,
}
use ciscollector_v.ConfigDrift.HostView.{
  Repo, resolve_guc_snapshot_target_id, build_host_guc_drift_view, count_text, host_guc_drift_count,
}
use ciscollector_v.ConfigDrift.HostFleet.{
  settings_of_target, IsShown, build_host_guc_drift_view-fleet,
}
use ciscollector_v.ConfigDrift.Totals.{IsTotal, guc_drift_from_snapshots-IsTotal}

abbrev three_settings : Map Text Text
three_settings = (lit "ssl", lit "on") ∷ (lit "fsync", lit "yes") ∷ (lit "port", lit "5432") ∷ []

abbrev live_settings : Map Text Text
live_settings = (lit "port", lit "5433") ∷ (lit "ssl", lit " TRUE") ∷ []

compare_against_baseline-rows_example :
    IsOrdered (map (λ r. r.guc) (compare_against_baseline three_settings live_settings))
    × ((p : Text → Bool)
        → count p (map (λ r. r.guc) (compare_against_baseline three_settings live_settings))
          ≡ count p (keys_of three_settings))
    × (count (λ r. not (is_match r.status)) (compare_against_baseline three_settings live_settings)
        ≡ count (λ k. not (agrees three_settings live_settings k)) (keys_of three_settings))
compare_against_baseline-rows_example = compare_against_baseline-rows three_settings live_settings

abbrev two_servers : List GucSnapshotSummary
two_servers =
    record { target_id = lit "a"; target_host = lit "db1" }
    ∷ record { target_id = lit "b"; target_host = [] }
    ∷ []

-- every server has the same snapshot
abbrev stored : Text → Option (Map Text Text)
stored target_id = some live_settings

guc_drift_from_snapshots-IsTotal_example :
    (resp : GucDriftResponse) × (guc_drift_from_snapshots stored three_settings two_servers
      ≡ some resp)
    × IsTotal 0 0 0 resp
guc_drift_from_snapshots-IsTotal_example =
    guc_drift_from_snapshots-IsTotal stored three_settings two_servers
      ((live_settings, refl), ((live_settings, refl), tt))

abbrev server_of : Text → Map Text Text → ConfigSetting
server_of name values = record { name = name; values = values }

abbrev ssl_and_port : List Text
ssl_and_port = lit "ssl" ∷ lit "port" ∷ []

compare_all_servers_with_base-split_example :
    (r : ConfigCompareOne2OneResult) × (compare_all_servers_with_base (record {
      all_settings =
          server_of (lit "a") three_settings
          ∷ server_of (lit "b") live_settings
          ∷ server_of (lit "c") three_settings
          ∷ [];
      all_unique_fields = ssl_and_port;
    })
      ≡ some r)
    × (r.base_server ≡ lit "a")
    × (r.matching
        ≡ map
            (λ s. s.name)
            (keep
              (same_values ssl_and_port (server_of (lit "a") three_settings))
              (server_of (lit "b") live_settings ∷ server_of (lit "c") three_settings ∷ [])))
    × ((name : Text)
        → is_some (lookup name r.not_matching)
          ≡ differs_under ssl_and_port
              (server_of (lit "a") three_settings)
              name
              (server_of (lit "b") live_settings ∷ server_of (lit "c") three_settings ∷ []))
compare_all_servers_with_base-split_example =
    compare_all_servers_with_base-split ssl_and_port (server_of (lit "a") three_settings)
      (server_of (lit "b") live_settings) (server_of (lit "c") three_settings ∷ [])

-- the store of the three settings and of one target
abbrev small_repo : Repo
small_repo = record {
  get_guc_baseline = some (lit "base", three_settings);
  get_server_guc_snapshot = λ target_id. some (live_settings, lit "db1");
  list_server_guc_snapshots = some two_servers;
}

abbrev no_response : GucDriftResponse
no_response = empty_response stored three_settings

abbrev first_server : GucSnapshotSummary
first_server = record { target_id = lit "a"; target_host = lit "db1" }

build_host_guc_drift_view-fleet_example :
    (resp : GucDriftResponse) × (add_host
        (settings_of_target small_repo)
        three_settings
        first_server
        no_response
      ≡ some resp)
    × IsShown first_server no_response resp
        (build_host_guc_drift_view (some small_repo) (lit "db1") (lit "a"))
    × (host_guc_drift_count (λ n. lit "many") (some small_repo) (lit "a")
        ≡ count_text
            (λ n. lit "many")
            ((build_host_guc_drift_view (some small_repo) (lit "db1") (lit "a")).drift_count
              + (build_host_guc_drift_view (some small_repo) (lit "db1") (lit "a")).missing_count))
unfolding trim_space beq
build_host_guc_drift_view-fleet_example =
    build_host_guc_drift_view-fleet (λ n. lit "many") small_repo first_server refl refl refl refl
      refl refl (lit "db1") no_response

-- one setting differs and one is missing
host_view_sum :
    (build_host_guc_drift_view (some small_repo) (lit "db1") (lit " a ")).drift_count
      + (build_host_guc_drift_view (some small_repo) (lit "db1") (lit " a ")).missing_count
    ≡ 2
unfolding build_host_guc_drift_view ciscollector_v.Common.lower
host_view_sum = refl

-- The host's name is compared without regard to case.
resolve_target : resolve_guc_snapshot_target_id (some small_repo) (lit " DB1") (lit "c") ≡ lit "a"
unfolding resolve_guc_snapshot_target_id
resolve_target = refl
