-- ===== src/Snapshot.antt =====
-- The crawl snapshot and its parts, map-server/src/snapshot.rs. Document has their JSON.
pub mod ShortId
use kwaai_net_map.Prelude.{ℕ, String, Bool, false, Option, none, List, [], eqb}
use kwaai_net_map.Prelude.Int.{ℤ, pos}
use kwaai_net_map.Prelude.F64.{F64}
use kwaai_net_map.Prelude.Json.{Json}

-- `DateTime<Utc>`: an instant, in ticks since an epoch.
abbrev pub DateTime : Type 0
DateTime = ℕ

pub record ServerInfo : Type 0 where
  pub state : String
  pub throughput : F64
  pub start_block : ℤ
  pub end_block : ℤ
  pub public_name : Option String
  pub version : Option String
  pub network_rps : Option F64
  pub forward_rps : Option F64
  pub inference_rps : Option F64
  pub torch_dtype : Option String
  pub quant_type : Option String
  pub using_relay : Option Bool
  pub cache_tokens_left : Option ℤ
  pub shard_loading : Option Bool
  pub vpk : Option Json
  pub trust_attestations : ℕ
  pub peer_id : Option String

-- `ServerInfo::default()`
abbrev pub default_server_info : ServerInfo
default_server_info = record {
  state = "";
  throughput = 0;
  start_block = pos 0;
  end_block = pos 0;
  public_name = none;
  version = none;
  network_rps = none;
  forward_rps = none;
  inference_rps = none;
  torch_dtype = none;
  quant_type = none;
  using_relay = none;
  cache_tokens_left = none;
  shard_loading = none;
  vpk = none;
  trust_attestations = 0;
  peer_id = none;
}

pub record Location : Type 0 where
  pub status : String
  pub country : String
  pub city : String
  pub lat : F64
  pub lon : F64
  pub isp : String

-- `Location::unknown()`
abbrev pub unknown : Location
unknown = record { status = "fail"; country = ""; city = ""; lat = 0; lon = 0; isp = "" }

-- `Location::via_relay()`
abbrev pub via_relay : Location
via_relay = record {
  status = "fail";
  country = "Unknown";
  city = "Via relay";
  lat = 0;
  lon = 0;
  isp = "Relay";
}

pub record PeerIpInfo : Type 0 where
  pub location : Location
  pub multiaddrs : List String
  pub reachability : Option String

-- `PeerIpInfo::default()`
abbrev pub default_peer_ip_info : PeerIpInfo
default_peer_ip_info = record { location = unknown; multiaddrs = []; reachability = none }

pub record PeerSpan : Type 0 where
  pub peer_id : String
  pub start : ℤ
  pub end : ℤ
  pub server_info : ServerInfo

pub record ServerRow : Type 0 where
  pub peer_id : String
  pub short_peer_id : String
  pub show_public_name : Bool
  pub state : String
  pub peer_ip_info : PeerIpInfo
  pub span : PeerSpan

pub record ModelReport : Type 0 where
  pub name : String
  pub short_name : String
  pub dht_prefix : String
  pub repository : String
  pub num_blocks : ℤ
  pub state : String
  pub server_rows : List ServerRow

pub record Contributor : Type 0 where
  pub peer_id : String
  pub public_name : Option String
  pub throughput : F64
  pub blocks : ℤ

pub record ReachabilityIssue : Type 0 where
  pub peer_id : String
  pub err : String

pub record BlockSpan : Type 0 where
  pub start : ℤ
  pub end : ℤ

pub record PeerRow : Type 0 where
  pub peer_id : String
  pub short_peer_id : String
  pub public_name : Option String
  pub version : Option String
  pub state : String
  pub shard_loading : Bool
  pub model : Option String
  pub span : Option BlockSpan
  pub throughput : F64
  pub using_relay : Option Bool
  pub vpk : Option Json
  pub trust_attestations : ℕ
  pub peer_ip_info : PeerIpInfo
  pub kad : Bool
  pub announced : Bool

pub record Snapshot : Type 0 where
  pub bootstrap_states : List String
  pub model_reports : List ModelReport
  pub num_peers : ℕ
  pub num_blocks_covered : ℕ
  pub top_contributors : List Contributor
  pub reachability_issues : List ReachabilityIssue
  pub last_updated : DateTime
  pub update_period : ℕ
  pub update_duration : F64
  pub stale_since : Option DateTime
  pub crawls_held : ℕ
  pub peers : List PeerRow

-- `Snapshot::default()` at the instant `now`.
abbrev pub default_snapshot : DateTime → Snapshot
default_snapshot now = record {
  bootstrap_states = [];
  model_reports = [];
  num_peers = 0;
  num_blocks_covered = 0;
  top_contributors = [];
  reachability_issues = [];
  last_updated = now;
  update_period = 0;
  update_duration = 0;
  stale_since = none;
  crawls_held = 0;
  peers = [];
}

-- `is_zero`, which keeps `crawls_held` off the wire.
unfoldable pub is_zero : ℕ → Bool
is_zero n = eqb n 0
