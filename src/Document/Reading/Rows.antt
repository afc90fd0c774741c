-- ===== src/Document/Reading/Rows.antt =====
-- The readers of the rows and of the whole document, map-server/src/snapshot.rs, as serde derives
-- them.
use kwaai_net_map.Prelude.{String, Option, none, some, [], ◌>>=◌}
use kwaai_net_map.Prelude.Int.{ℤ}
use kwaai_net_map.Prelude.F64.{F64}
use kwaai_net_map.Prelude.Json.{Json}
use kwaai_net_map.Snapshot.{DateTime, PeerRow, Snapshot}
use kwaai_net_map.Document.Slots.{read_object}
use kwaai_net_map.Document.Values.{
  read_text, read_bool, read_f64, read_list, required, defaulted, optional,
}
use kwaai_net_map.Document.Reading.{
  Found, read_u64, read_u32, read_issue, read_block_span, read_peer_ip_info, read_model_report,
  read_contributor,
}

module _ (of_int : ℤ → F64) where
  unfoldable pub peer_row_from : Found → Option PeerRow
  peer_row_from found = do
    peer_id ← required read_text (found "peer_id")
    short_peer_id ← required read_text (found "short_peer_id")
    public_name ← optional read_text (found "public_name")
    version ← optional read_text (found "version")
    state ← required read_text (found "state")
    shard_loading ← required read_bool (found "shard_loading")
    model ← optional read_text (found "model")
    span ← optional read_block_span (found "span")
    throughput ← required (read_f64 of_int) (found "throughput")
    using_relay ← optional read_bool (found "using_relay")
    vpk ← optional some (found "vpk")
    trust_attestations ← required read_u64 (found "trust_attestations")
    peer_ip_info ← required (read_peer_ip_info of_int) (found "peer_ip_info")
    kad ← required read_bool (found "kad")
    announced ← required read_bool (found "announced")
    some (record {
      peer_id = peer_id;
      short_peer_id = short_peer_id;
      public_name = public_name;
      version = version;
      state = state;
      shard_loading = shard_loading;
      model = model;
      span = span;
      throughput = throughput;
      using_relay = using_relay;
      vpk = vpk;
      trust_attestations = trust_attestations;
      peer_ip_info = peer_ip_info;
      kad = kad;
      announced = announced;
    })

  unfoldable pub read_peer_row : Json → Option PeerRow
  read_peer_row = read_object peer_row_from

  module _ (read_date : String → Option DateTime) where
    abbrev pub read_instant : Json → Option DateTime
    read_instant (Json.string s) = read_date s
    read_instant _ = none

    unfoldable pub snapshot_from : Found → Option Snapshot
    snapshot_from found = do
      bootstrap_states ← required (read_list read_text) (found "bootstrap_states")
      model_reports ← required (read_list (read_model_report of_int)) (found "model_reports")
      num_peers ← required read_u64 (found "num_peers")
      num_blocks_covered ← required read_u64 (found "num_blocks_covered")
      top_contributors ← required (read_list (read_contributor of_int)) (found "top_contributors")
      reachability_issues ← required (read_list read_issue) (found "reachability_issues")
      last_updated ← required read_instant (found "last_updated")
      update_period ← required read_u64 (found "update_period")
      update_duration ← required (read_f64 of_int) (found "update_duration")
      stale_since ← optional read_instant (found "stale_since")
      crawls_held ← defaulted read_u32 0 (found "crawls_held")
      peers ← defaulted (read_list read_peer_row) [] (found "peers")
      some (record {
        bootstrap_states = bootstrap_states;
        model_reports = model_reports;
        num_peers = num_peers;
        num_blocks_covered = num_blocks_covered;
        top_contributors = top_contributors;
        reachability_issues = reachability_issues;
        last_updated = last_updated;
        update_period = update_period;
        update_duration = update_duration;
        stale_since = stale_since;
        crawls_held = crawls_held;
        peers = peers;
      })

    unfoldable pub read_snapshot : Json → Option Snapshot
    read_snapshot = read_object snapshot_from
