-- ===== src/Startup.antt =====
-- Start-up: `main` of map-server/src/main.rs, `start` of map-server/src/observer.rs, `AppState` of
-- map-server/src/state.rs and `GeoIp::from_env` of map-server/src/geoip.rs.
pub mod Words
pub mod Running
pub mod Pins
use kwaai_net_map.Prelude.{
  ℕ, String, Bool, true, false, not, ◌||◌, Option, none, some, List, [], ◌∷◌, ◌++◌, map, ◌==◌, ◌⊎◌,
  inl, inr, if◌then◌else◌, ◌>>=◌, map_option, unwrap_or, is_empty, select, filter_map, any, Assoc,
}
use kwaai_net_map.Text.{append, split_whitespace, parse_usize, split_on, trim}
use Prim.Native.Char.{code}
use kwaai_net_map.Prelude.{eqb}
use kwaai_net_map.Snapshot.{DateTime}
use kwaai_net_map.GeoIp.{GeoIp, StaticEntry, load_static}
use kwaai_net_map.Probe.{Verdict}
use kwaai_net_map.Cache
use kwaai_net_map.Cache.{NodeCache}

-- The variables of the process, those that are set and valid text.
abbrev pub Vars : Type 0
Vars = String → Option String

-- Set to none of `0`, `false` and `no`.
unfoldable pub switched_on : Option String → Bool
switched_on none = true
switched_on (some v) = not (v == "0" || v == "false" || v == "no")

unfoldable pub bind_addr : Vars → String
bind_addr vars = unwrap_or (vars "BIND_ADDR") "0.0.0.0:3030"

unfoldable pub total_blocks : Vars → Option ℕ
total_blocks vars = vars "TOTAL_BLOCKS" >>= parse_usize

unfoldable pub only_global_ips : Vars → Bool
unfolding switched_on
only_global_ips vars = switched_on (vars "MAP_ONLY_GLOBAL_IPS")

unfoldable pub bootstrap_peers : Vars → List String
bootstrap_peers vars =
    select (λ s. not (s == "")) (split_whitespace (unwrap_or (vars "BOOTSTRAP_PEERS") ""))

-- `GeoIp::from_env`; `read` reads and parses the operator's file.
unfoldable pub from_env : (read : String → Option (Assoc StaticEntry)) → Vars → GeoIp
unfolding switched_on
from_env read vars = record {
  cache = [];
  dns = [];
  enabled = switched_on (vars "GEOIP_ENABLED");
  statics = unwrap_or (map_option (λ path. load_static (read path)) (vars "GEOIP_STATIC_FILE")) [];
}

-- The fields of the swarm's configuration that are set; the others keep their defaults.
pub record NetworkConfig : Type 0 where
  pub initial_peers : List String
  pub dht_server : Bool
  pub require_global_ips : Bool

-- The libraries that start-up calls. `World` is the network's state.
pub record Platform (World Handle Multiaddr Origin : Type 0) : Type 0 where
  pub parse_multiaddr : String → Option Multiaddr
  pub parse_origin : String → Option Origin
  pub is_wildcard : Origin → Bool
  pub spawn : NetworkConfig → World → Option Handle × World
  pub bootstrap : Handle → List Multiaddr → World → Bool × World
  pub bind : String → Bool

pub data Cors (Origin : Type 0) : Type 0 where
  permissive : Cors Origin
  allow_origins : List Origin → Cors Origin

-- `AppState`, with what the crawler's task takes and where the server listens.
pub record AppState (Handle Origin : Type 0) : Type 0 where
  pub cache : NodeCache
  pub total_blocks : Option ℕ
  pub probes : Assoc (ℕ × Verdict)
  pub handle : Handle
  pub bootstrap_peers : List String
  pub cors : Cors Origin

pub data Handler : Type 0 where
  get_stats : Handler
  get_nodes : Handler
  ws_live : Handler
  metrics : Handler
  get_v1_state : Handler
  is_reachable : Handler
  health : Handler

-- `nest`: the inner paths behind a prefix.
abbrev nest : String → Assoc Handler → Assoc Handler
nest prefix inner = map (λ (e : String × Handler). (append prefix e.0, e.1)) inner

unfoldable pub api : Assoc Handler
api =
    ("/stats", get_stats)
    ∷ ("/nodes", get_nodes)
    ∷ ("/live", ws_live)
    ∷ ("/prometheus", metrics)
    ∷ ("/v1/state", get_v1_state)
    ∷ ("/v1/is_reachable/:peer_id", is_reachable)
    ∷ []

-- The paths that are served; axum matches them.
unfoldable pub app : Assoc Handler
unfolding api
app = nest "/api" api ++ ("/health", health) ∷ ("/metrics", metrics) ∷ []

-- Why the process ends before it serves.
pub data Refusal : Type 0 where
  no_bootstraps : Refusal
  no_swarm : Refusal
  wildcard_listed : Refusal
  no_listener : Refusal

-- What ends the process that serves: the server, well or with an error, or the swarm's task.
pub data Ending : Type 0 where
  server_done : Ending
  server_failed : Ending
  swarm_ended : Ending

module _ {World Handle Multiaddr Origin : Type 0}
    (os : Platform World Handle Multiaddr Origin) where
  -- `observer::start`: a failed bootstrap is not an error.
  unfoldable pub start : List String → Bool → World → Option Handle × World
  start peers global w =
      let (spawned, w') =
        os.spawn (record { initial_peers = peers; dht_server = false; require_global_ips = global })
          w in
      elim spawned [
        | none ↦ (none, w')
        | some handle ↦
            let (reached, w'') = os.bootstrap handle (filter_map os.parse_multiaddr peers) w' in
            (some handle, w'')
      ]

  -- `allow_origin` of a list panics if the wildcard is among the origins; `none` is that panic.
  unfoldable pub cors_of : Vars → Option (Cors Origin)
  cors_of vars =
      let allowed = unwrap_or (vars "ALLOWED_ORIGINS") "*" in
      if allowed == "*"
      then some permissive
      else let origins =
          filter_map (λ o. os.parse_origin (trim o)) (split_on (λ c. eqb (code c) b',') allowed) in
        if any os.is_wildcard origins then none else some (allow_origins origins)

  module _ (now : DateTime) where
    -- `main` up to the point where it serves.
    unfoldable pub set_up : Vars → World → (Refusal ⊎ AppState Handle Origin) × World
    unfolding cors_of
    set_up vars w =
        let peers = bootstrap_peers vars in
        if is_empty peers
        then (inl no_bootstraps, w)
        else let (started, w') = start peers (only_global_ips vars) w in
          elim started [
            | none ↦ (inl no_swarm, w')
            | some handle ↦ elim (cors_of vars) [
              | none ↦ (inl wildcard_listed, w')
              | some cors ↦
                  if os.bind (bind_addr vars)
                  then (
                    inr (record {
                      cache = Cache.new now;
                      total_blocks = total_blocks vars;
                      probes = [];
                      handle = handle;
                      bootstrap_peers = peers;
                      cors = cors;
                    }),
                    w',
                  )
                  else (inl no_listener, w')
            ]
          ]

    -- Whether `main` returns without an error, if the server or the swarm's task ends first.
    unfoldable pub exits_well : Vars → World → Ending → Bool
    exits_well vars w ending = elim (set_up vars w).0 [
      | inl refused ↦ false
      | inr served ↦ elim ending [
        | server_done ↦ true
        | server_failed ↦ false
        | swarm_ended ↦ false
      ]
    ]
