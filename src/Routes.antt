-- ===== src/Routes.antt =====
-- The routes, map-server/src/routes.rs: what they read and compute. `Json` is that of the library.
pub mod Gauges
pub mod Exposition
use kwaai_net_map.Prelude.{
  ℕ, String, Bool, Option, none, some, List, [], ◌∷◌, ◌==◌, if◌then◌else◌, map_option, unwrap_or,
  length, count_if, Assoc,
}
use kwaai_net_map.Prelude.F64.{F64}
use kwaai_net_map.Snapshot.{DateTime, PeerRow, Snapshot}
use kwaai_net_map.Cache.{NodeCache, NodeEntry, NetworkStats, FloatOps, stats}
use kwaai_net_map.Probe.{Verdict, Outcome, Action, check}

-- The row of the peer.
unfoldable pub find_row : String → List PeerRow → Option PeerRow
find_row peer_id [] = none
find_row peer_id (row ∷ peers) = if row.peer_id == peer_id then some row else find_row peer_id peers

-- The addresses on which the last crawl saw the peer.
unfoldable pub known_addrs : String → Snapshot → List String
unfolding find_row
known_addrs peer_id snapshot =
    unwrap_or
      (map_option (λ (p : PeerRow). p.peer_ip_info.multiaddrs) (find_row peer_id snapshot.peers)) []

-- `is_reachable`, with the probe's cache as the check finds it and as it stands when a dial has ended.
unfoldable pub is_reachable :
    (is_peer_id : String → Bool)
    → (outcome : String → Outcome) → (now finished : ℕ) → NodeCache
    → String
    → (probes later : Assoc (ℕ × Verdict)) → Verdict × Assoc (ℕ × Verdict) × List Action
unfolding known_addrs
is_reachable is_peer_id outcome now finished cache peer_id probes later =
    check is_peer_id outcome now finished peer_id (known_addrs peer_id cache.snapshot) probes later

-- The gauges of `metrics`, in the order in which they are written.
pub record Metrics : Type 0 where
  pub nodes : F64
  pub peers : F64
  pub tokens_per_second : F64
  pub block_coverage_percent : F64
  pub blocks_covered : F64
  pub models : F64
  pub bootstraps_online : F64
  pub bootstraps_total : F64
  pub last_crawl_timestamp_seconds : F64

abbrev pub online_count : Snapshot → ℕ
online_count snapshot = count_if (λ s. s == "online") snapshot.bootstrap_states

-- `seconds` is the Unix time of an instant, as a float.
unfoldable pub metrics : FloatOps → (DateTime → F64) → NodeCache → Option ℕ → Metrics
metrics ops seconds cache total_blocks =
    let s = stats ops cache total_blocks in
    let snapshot = cache.snapshot in
    record {
      nodes = ops.of_usize s.node_count;
      peers = ops.of_usize snapshot.num_peers;
      tokens_per_second = s.tokens_per_sec;
      block_coverage_percent = s.coverage_pct;
      blocks_covered = ops.of_usize snapshot.num_blocks_covered;
      models = ops.of_usize (length snapshot.model_reports);
      bootstraps_online = ops.of_usize (online_count snapshot);
      bootstraps_total = ops.of_usize (length snapshot.bootstrap_states);
      last_crawl_timestamp_seconds = seconds snapshot.last_updated;
    }

unfoldable pub get_v1_state : NodeCache → Snapshot
get_v1_state cache = cache.snapshot

unfoldable pub get_stats : FloatOps → NodeCache → Option ℕ → NetworkStats
get_stats ops cache total_blocks = stats ops cache total_blocks

unfoldable pub get_nodes : NodeCache → List NodeEntry
get_nodes cache = cache.nodes

-- The payloads that `handle_live` sends. At each tick there is a cache, and a send then succeeds or
-- finds the client gone; `to_string` is that of `serde_json`.
unfoldable pub handle_live :
    FloatOps
    → (to_string : NetworkStats → Option String) → Option ℕ
    → List (NodeCache × Bool)
    → List String
handle_live ops to_string total_blocks [] = []
handle_live ops to_string total_blocks ((cache, sends) ∷ ticks) =
    let rest = handle_live ops to_string total_blocks ticks in
    elim (to_string (stats ops cache total_blocks)) [
      | none ↦ rest
      | some payload ↦ payload ∷ (if sends then rest else [])
    ]
