-- ===== src/Document.antt =====
-- The JSON of map-server/src/snapshot.rs: the members that each struct's fields, their order and
-- their serde attributes give it. `date_text` is chrono's text of an instant.
pub mod Slots
pub mod Values
pub mod Reading
pub mod Seen
pub mod RoundTrip
pub mod Marks
use kwaai_net_map.Prelude.{String, none, some, [], ◌∷◌, if◌then◌else◌, map_option}
use kwaai_net_map.Prelude.Json.{Json}
use kwaai_net_map.Snapshot.{
  DateTime, ServerInfo, Location, PeerIpInfo, PeerSpan, ServerRow, ModelReport, Contributor,
  ReachabilityIssue, BlockSpan, PeerRow, Snapshot, is_zero,
}
use Slots.{Fields, struct}
use Values.{write_f64, write_unsigned, write_option, write_list}

-- `skip_serializing_if = "Option::is_none"` on ten fields, and `skip` on `peer_id`.
unfoldable pub server_info_slots : ServerInfo → Fields
server_info_slots i =
    ("state", some (Json.string i.state))
    ∷ ("throughput", some (write_f64 i.throughput))
    ∷ ("start_block", some (Json.integer i.start_block))
    ∷ ("end_block", some (Json.integer i.end_block))
    ∷ ("public_name", map_option Json.string i.public_name)
    ∷ ("version", map_option Json.string i.version)
    ∷ ("network_rps", map_option write_f64 i.network_rps)
    ∷ ("forward_rps", map_option write_f64 i.forward_rps)
    ∷ ("inference_rps", map_option write_f64 i.inference_rps)
    ∷ ("torch_dtype", map_option Json.string i.torch_dtype)
    ∷ ("quant_type", map_option Json.string i.quant_type)
    ∷ ("using_relay", map_option Json.bool i.using_relay)
    ∷ ("cache_tokens_left", map_option Json.integer i.cache_tokens_left)
    ∷ ("shard_loading", map_option Json.bool i.shard_loading)
    ∷ ("vpk", i.vpk)
    ∷ ("trust_attestations", some (write_unsigned i.trust_attestations))
    ∷ []

unfoldable pub write_server_info : ServerInfo → Json
write_server_info i = struct (server_info_slots i)

unfoldable pub write_location : Location → Json
write_location l = struct (
    ("status", some (Json.string l.status))
    ∷ ("country", some (Json.string l.country))
    ∷ ("city", some (Json.string l.city))
    ∷ ("lat", some (write_f64 l.lat))
    ∷ ("lon", some (write_f64 l.lon))
    ∷ ("isp", some (Json.string l.isp))
    ∷ [])

unfoldable pub write_peer_ip_info : PeerIpInfo → Json
write_peer_ip_info p = struct (
    ("location", some (write_location p.location))
    ∷ ("multiaddrs", some (write_list Json.string p.multiaddrs))
    ∷ ("reachability", map_option Json.string p.reachability)
    ∷ [])

unfoldable pub write_peer_span : PeerSpan → Json
write_peer_span s = struct (
    ("peer_id", some (Json.string s.peer_id))
    ∷ ("start", some (Json.integer s.start))
    ∷ ("end", some (Json.integer s.end))
    ∷ ("server_info", some (write_server_info s.server_info))
    ∷ [])

unfoldable pub write_server_row : ServerRow → Json
write_server_row r = struct (
    ("peer_id", some (Json.string r.peer_id))
    ∷ ("short_peer_id", some (Json.string r.short_peer_id))
    ∷ ("show_public_name", some (Json.bool r.show_public_name))
    ∷ ("state", some (Json.string r.state))
    ∷ ("peer_ip_info", some (write_peer_ip_info r.peer_ip_info))
    ∷ ("span", some (write_peer_span r.span))
    ∷ [])

unfoldable pub write_model_report : ModelReport → Json
write_model_report m = struct (
    ("name", some (Json.string m.name))
    ∷ ("short_name", some (Json.string m.short_name))
    ∷ ("dht_prefix", some (Json.string m.dht_prefix))
    ∷ ("repository", some (Json.string m.repository))
    ∷ ("num_blocks", some (Json.integer m.num_blocks))
    ∷ ("state", some (Json.string m.state))
    ∷ ("server_rows", some (write_list write_server_row m.server_rows))
    ∷ [])

unfoldable pub write_contributor : Contributor → Json
write_contributor c = struct (
    ("peer_id", some (Json.string c.peer_id))
    ∷ ("public_name", some (write_option Json.string c.public_name))
    ∷ ("throughput", some (write_f64 c.throughput))
    ∷ ("blocks", some (Json.integer c.blocks))
    ∷ [])

unfoldable pub write_issue : ReachabilityIssue → Json
write_issue r =
    struct (("peer_id", some (Json.string r.peer_id)) ∷ ("err", some (Json.string r.err)) ∷ [])

unfoldable pub write_block_span : BlockSpan → Json
write_block_span s =
    struct (("start", some (Json.integer s.start)) ∷ ("end", some (Json.integer s.end)) ∷ [])

-- No option of a row is skipped.
unfoldable pub write_peer_row : PeerRow → Json
write_peer_row r = struct (
    ("peer_id", some (Json.string r.peer_id))
    ∷ ("short_peer_id", some (Json.string r.short_peer_id))
    ∷ ("public_name", some (write_option Json.string r.public_name))
    ∷ ("version", some (write_option Json.string r.version))
    ∷ ("state", some (Json.string r.state))
    ∷ ("shard_loading", some (Json.bool r.shard_loading))
    ∷ ("model", some (write_option Json.string r.model))
    ∷ ("span", some (write_option write_block_span r.span))
    ∷ ("throughput", some (write_f64 r.throughput))
    ∷ ("using_relay", some (write_option Json.bool r.using_relay))
    ∷ ("vpk", some (write_option (λ v. v) r.vpk))
    ∷ ("trust_attestations", some (write_unsigned r.trust_attestations))
    ∷ ("peer_ip_info", some (write_peer_ip_info r.peer_ip_info))
    ∷ ("kad", some (Json.bool r.kad))
    ∷ ("announced", some (Json.bool r.announced))
    ∷ [])

module _ (date_text : DateTime → String) where
  abbrev pub write_date : DateTime → Json
  write_date t = Json.string (date_text t)

  -- `stale_since` is skipped while none, `crawls_held` while zero, `peers` never.
  unfoldable pub snapshot_slots : Snapshot → Fields
  snapshot_slots s =
      ("bootstrap_states", some (write_list Json.string s.bootstrap_states))
      ∷ ("model_reports", some (write_list write_model_report s.model_reports))
      ∷ ("num_peers", some (write_unsigned s.num_peers))
      ∷ ("num_blocks_covered", some (write_unsigned s.num_blocks_covered))
      ∷ ("top_contributors", some (write_list write_contributor s.top_contributors))
      ∷ ("reachability_issues", some (write_list write_issue s.reachability_issues))
      ∷ ("last_updated", some (write_date s.last_updated))
      ∷ ("update_period", some (write_unsigned s.update_period))
      ∷ ("update_duration", some (write_f64 s.update_duration))
      ∷ ("stale_since", map_option write_date s.stale_since)
      ∷ ("crawls_held", if is_zero s.crawls_held then none else some (write_unsigned s.crawls_held))
      ∷ ("peers", some (write_list write_peer_row s.peers))
      ∷ []

  unfoldable pub write_snapshot : Snapshot → Json
  write_snapshot s = struct (snapshot_slots s)
