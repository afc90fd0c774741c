-- ===== src/Pass.antt =====
-- One pass of the crawler and its loop: `crawl_once`, `connect_discovered_peers` and `run_crawler`
-- of map-server/src/crawler.rs.
pub mod Dials
pub mod Served
pub mod Queries
pub mod Logs
pub mod States
pub mod Reports
pub mod Rows
pub mod Frozen
pub mod Sealed
pub mod Asked
use kwaai_net_map.Prelude.{
  ℕ, String, Bool, true, false, not, Option, none, some, List, [], ◌∷◌, ◌++◌, ◌==◌, if◌then◌else◌,
  map_option, unwrap_or, select, filter_map, length, Assoc, keys, lookup, count_if,
}
use kwaai_net_map.Prelude.F64.{F64}
use kwaai_net_map.Prelude.Sorting.{member, text_set, insert_sorted}
use kwaai_net_map.Text.{append}
use kwaai_net_map.Snapshot.{DateTime, ServerInfo, Location, Contributor, Snapshot, default_snapshot}
use kwaai_net_map.Bootstrap.{BootstrapSet, new, has_dialable, states, dial_all}
use kwaai_net_map.Observed.{PeerInfo, Observed, observed_addrs, excluded_peers}
use kwaai_net_map.Multiaddr.{IpAddr, public_ips, relay_dns_names}
use kwaai_net_map.GeoIp.{GeoIp, ApiEntry, locate, resolve_relays, warm}
use kwaai_net_map.Assemble.{Model, PeerModelEntry}
use kwaai_net_map.Assemble.Build.{build_snapshot}
use kwaai_net_map.Cache.{NodeCache, publish}
use kwaai_net_map.Dht.Wire.{Msgpack}
use kwaai_net_map.Probe.{Outcome, connected, failed, timed_out}
use kwaai_net_map.Crawl.{Network, discover_models, collect_model, collect_capability}

-- Why a dial failed, if it did.
abbrev pub dial_error : Outcome → Option String
dial_error connected = none
dial_error (failed e) = some e
dial_error timed_out = some "dial timed out after 15s"

-- One peer's dial, at its bare id; `outcome` says how the dial of an address ends.
abbrev pub error_of : (String → Outcome) → String → Option (String × String)
error_of outcome peer_id =
    map_option (λ (e : String). (peer_id, e)) (dial_error (outcome (append "/p2p/" peer_id)))

-- The failed dials, in the order of the peers: the map that they are collected into is sorted.
unfoldable pub connect_discovered_peers : (String → Outcome) → String → List String → Assoc String
connect_discovered_peers outcome ours peer_ids =
    filter_map (error_of outcome) (select (λ id. not (id == ours)) peer_ids)

-- What one pass meets: the answers of the swarm, the provider and the resolver, and the clock.
pub record Environment (World PeerId : Type 0) : Type 0 where
  pub net : Network World PeerId
  pub msgpack : Msgpack
  -- Whether the first dial of a bootstrap succeeds in time, and the network after those dials.
  pub connects : String → Bool
  pub start : World
  -- The peers of `network_snapshot` after the queries; `none` when it failed.
  pub kad_known : Option (List String)
  pub dial_outcome : String → Outcome
  -- The answer of `list_peers`; `none` when it failed.
  pub listed : Option (List PeerInfo)
  pub lookup_host : String → Option (List (IpAddr × String))
  pub fetch : List String → Option (List ApiEntry)
  pub into_values : Assoc Contributor → List Contributor
  pub now : DateTime
  pub elapsed : F64

abbrev pub crawl_interval : ℕ
crawl_interval = 60

-- The observed addresses of every peer.
unfoldable pub flat_addrs : Assoc Observed → List String
flat_addrs [] = []
flat_addrs ((id, o) ∷ addrs) = o.addrs ++ flat_addrs addrs

unfoldable pub model_peers : Assoc (Assoc PeerModelEntry) → List String
model_peers [] = []
model_peers ((dht_prefix, peers) ∷ per_model) = keys peers ++ model_peers per_model

-- The peers that a pass dials.
unfoldable pub discovered :
    Assoc (Assoc PeerModelEntry)
    → Assoc ServerInfo
    → Option (List String)
    → List String
    → List String
unfolding model_peers
discovered per_model capability_peers kad_known exclude = text_set (
    select (λ id. not (member id exclude))
      (model_peers per_model ++ (keys capability_peers ++ unwrap_or kad_known [])))

-- `online/total`, the numbers of the log line.
unfoldable pub bootstrap_tally : Snapshot → ℕ × ℕ
bootstrap_tally snapshot =
    (count_if (λ s. s == "online") snapshot.bootstrap_states, length snapshot.bootstrap_states)

-- `parse_ip`, `decimal` and `ours` are the same in every pass.
module _ {World PeerId : Type 0} (parse_ip : String → Option IpAddr) (decimal : ℕ → String)
    (ours : String) where
  -- The loop over the models; `per_model` is keyed by prefix.
  unfoldable pub collect_models :
      Environment World PeerId
      → List Model
      → Assoc (Assoc PeerModelEntry)
      → BootstrapSet
      → World
      → Assoc (Assoc PeerModelEntry) × BootstrapSet × World
  collect_models env [] per_model set w = (per_model, set, w)
  collect_models env (model ∷ models) per_model set w =
      let entry = unwrap_or (lookup model.dht_prefix per_model) [] in
      let (out, set', w') = collect_model env.net env.msgpack decimal model entry set w in
      collect_models env models (insert_sorted model.dht_prefix out per_model) set' w'

  unfoldable pub collect_capabilities :
      Environment World PeerId
      → List String
      → Assoc ServerInfo
      → BootstrapSet
      → World
      → Assoc ServerInfo × BootstrapSet × World
  collect_capabilities env [] out set w = (out, set, w)
  collect_capabilities env (key ∷ names) out set w =
      let (out', set', w') = collect_capability env.net env.msgpack key out set w in
      collect_capabilities env names out' set' w'

  -- Everything that a pass asks of the DHT.
  unfoldable pub query_all :
      Environment World PeerId
      → BootstrapSet
      → List Model × Assoc (Assoc PeerModelEntry) × Assoc ServerInfo × BootstrapSet
  unfolding collect_models collect_capabilities
  query_all env set =
      let (models, set', w) = discover_models env.net env.msgpack set env.start in
      let (per_model, set'', w') = collect_models env models [] set' w in
      let (capable, set''', w'') =
        collect_capabilities env ("_kwaai.vpk.nodes" ∷ "_kwaai.inference.nodes" ∷ []) [] set'' w' in
      (models, per_model, capable, set''')

  -- The addresses that a pass warms the location cache with, and the cache.
  unfoldable pub warmed : Environment World PeerId → Assoc Observed → GeoIp → GeoIp
  unfolding flat_addrs
  warmed env addrs geo =
      let flat = flat_addrs addrs in
      let (relays, geo') = resolve_relays parse_ip env.lookup_host (relay_dns_names flat) geo in
      warm env.fetch (public_ips parse_ip flat ++ relays) geo'

  -- The pass after the dials; `none` is a panic.
  unfoldable pub crawl_dialed :
      Environment World PeerId → List String → BootstrapSet → GeoIp → Option Snapshot × GeoIp
  unfolding query_all warmed discovered connect_discovered_peers
  crawl_dialed env bootstrap_peers set geo =
      let (models, per_model, capable, set') = query_all env set in
      let exclude = excluded_peers ours bootstrap_peers in
      let dial_errors =
        connect_discovered_peers env.dial_outcome ours
          (discovered per_model capable env.kad_known exclude) in
      let addrs = observed_addrs env.listed in
      let geo' = warmed env addrs geo in
      (
        map_option
            (λ (s : Snapshot). record s {
              update_period = crawl_interval;
              update_duration = env.elapsed;
            })
            (build_snapshot env.into_values (locate parse_ip geo') env.now (states set') models
              per_model capable addrs dial_errors exclude),
        geo',
      )

  unfoldable pub crawl_once :
      Environment World PeerId → List String → GeoIp → Option Snapshot × GeoIp
  unfolding crawl_dialed
  crawl_once env bootstrap_peers geo =
      let set = dial_all env.connects (new bootstrap_peers) in
      if not (has_dialable set)
      then (
        some (record (default_snapshot env.now) {
          bootstrap_states = states set;
          update_period = crawl_interval;
          update_duration = env.elapsed;
        }),
        geo,
      )
      else crawl_dialed env bootstrap_peers set geo

  -- The loop over any number of passes. A panic ends the task, and the cache stays as it is.
  unfoldable pub run_crawler :
      List String → List (Environment World PeerId) → GeoIp → NodeCache → NodeCache
  unfolding crawl_once
  run_crawler bootstrap_peers [] geo cache = cache
  run_crawler bootstrap_peers (env ∷ passes) geo cache =
      let (crawled, geo') = crawl_once env bootstrap_peers geo in
      elim crawled [
        | none ↦ cache
        | some snapshot ↦ run_crawler bootstrap_peers passes geo' (publish snapshot cache)
      ]
