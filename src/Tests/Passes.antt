-- ===== src/Tests/Passes.antt =====
-- Whole passes over the small network of Tests/Crawls.
use kwaai_net_map.Prelude.{
  ℕ, String, true, false, Option, none, some, List, [], ◌∷◌, map, ◌≡◌, refl, ◌==◌, if◌then◌else◌,
  All, values, lookup, eq_iff, arith,
}
use kwaai_net_map.Prelude.Int.{pos}
use kwaai_net_map.Prelude.Sorting.{member, text_set, insert_sorted}
use kwaai_net_map.Text.{append, contains, split_once, rsplit_once}
use kwaai_net_map.Snapshot.{Snapshot, default_snapshot}
use kwaai_net_map.Bootstrap.{state_of, has_dialable, dial_all, live, record_answer}
use kwaai_net_map.Bootstrap
use kwaai_net_map.Bootstrap.Laws.{IsDistinct, answered_in}
use kwaai_net_map.Snapshot.ShortId.{short_peer_id}
use kwaai_net_map.Assemble.{map_all}
use kwaai_net_map.Assemble.Build.{build_snapshot}
use kwaai_net_map.Observed.{Direction, PeerInfo, observed_addrs, excluded_peers}
use kwaai_net_map.Observed.Grouping.{connections_of, seen_as, observed_addrs_lem}
use kwaai_net_map.Multiaddr.{IpAddr}
use kwaai_net_map.GeoIp.{GeoIp}
use kwaai_net_map.Cache.{FloatOps, new}
use kwaai_net_map.Cache.Holding.{publish_all}
use kwaai_net_map.Dht.{servers_in, decode_model_registry}
use kwaai_net_map.Crawl.{
  Network, discover_models, rpc_find, rpc_find_inner, collect_model, collect_capability,
}
use kwaai_net_map.Dht.Entries.{dictionary_named}
use kwaai_net_map.Probe.{Outcome, connected, timed_out}
use kwaai_net_map.Pass.{Environment, connect_discovered_peers, crawl_once, run_crawler}
use kwaai_net_map.Pass.Dials.{connect_discovered_peers_lem, is_found, IsFailure}
use kwaai_net_map.Pass.{discovered}
use kwaai_net_map.Assemble.{PeerModelEntry}
use kwaai_net_map.Snapshot.{default_server_info}
use kwaai_net_map.Prelude.{Assoc, ◌≢◌, ◌↔◌}
use kwaai_net_map.Pass.Served.{IsCrawled, snapshots_of, run_crawler-publish_all}
use kwaai_net_map.Pass.Logs.{pass_log}
use kwaai_net_map.Pass.States.{crawl_once_states}
use kwaai_net_map.Routes.{metrics}
use kwaai_net_map.Routes.Gauges.{metrics-run_crawler}
use kwaai_net_map.Tests.Crawls.{toy, net, one_digit}

abbrev dialed_late : String → Outcome
dialed_late addr = if addr == "/p2p/QmA" then timed_out else connected

abbrev held : Assoc (Assoc PeerModelEntry)
held = ("bloom", ("QmB", record { blocks = 0 ∷ []; info = default_server_info }) ∷ []) ∷ []

connect_discovered_peers_lem_example :
    (lookup "QmA" (
        connect_discovered_peers dialed_late "QmUs"
          (discovered held [] (some ("QmA" ∷ [])) ("QmDead" ∷ [])))
      ≡ some "dial timed out after 15s")
    ↔ ((member "QmA" ("QmDead" ∷ []) ≡ false)
        × (is_found held [] (some ("QmA" ∷ [])) ("QmDead" ∷ []) "QmA" ≡ true)
        × (◌≢◌ {A = String} "QmA" "QmUs")
        × IsFailure (dialed_late (append "/p2p/" "QmA")) "dial timed out after 15s")
connect_discovered_peers_lem_example =
    connect_discovered_peers_lem held [] (some ("QmA" ∷ [])) ("QmDead" ∷ []) dialed_late "QmUs"
      "QmA" "dial timed out after 15s"

abbrev pub connection : String → String → Option String → PeerInfo
connection id addr agent = record {
  peer_id = id;
  addr = addr;
  direction = Direction.outbound;
  via = none;
  dcutr = false;
  agent_version = agent;
  protocols = "/kwaai/kad/1.0.0" ∷ [];
}

abbrev interleaved : List PeerInfo
interleaved =
    connection "QmA" "/ip4/1.1.1.1/tcp/1" none
    ∷ connection "QmB" "/ip4/2.2.2.2/tcp/1" none
    ∷ connection "QmA" "/ip4/3.3.3.3/tcp/1" (some "kwaainet/0.7.0")
    ∷ []

observed_addrs_lem_example :
    lookup "QmA" (observed_addrs (some interleaved))
    ≡ seen_as "QmA" (connections_of "QmA" interleaved)
observed_addrs_lem_example = observed_addrs_lem interleaved "QmA"

named_test :
    All (λ s. (s.0 == "") ≡ false) (servers_in toy (pos 2) (7 ∷ []))
    × All (λ reg. (reg.dht_prefix == "") ≡ false) (decode_model_registry toy (7 ∷ []))
named_test = dictionary_named toy (7 ∷ [])

-- The bootstrap that answers holds no records.
abbrev quiet : Network ℕ String
quiet = record net { decode = λ bytes. some [] }

abbrev pub environment : Environment ℕ String
environment = record {
  net = quiet;
  msgpack = toy;
  connects = λ addr. true;
  start = 0;
  kad_known = some ("QmB" ∷ []);
  dial_outcome = dialed_late;
  listed = some interleaved;
  lookup_host = λ name. none;
  fetch = λ batch. none;
  into_values = values;
  now = 1000;
  elapsed = 0;
}

abbrev pub no_ip : String → Option IpAddr
no_ip s = none

abbrev pub no_places : GeoIp
no_places = record { cache = []; dns = []; enabled = true; statics = [] }

abbrev pub configured : List String
configured = "/ip4/1.1.1.1/tcp/1/p2p/QmDead" ∷ "/ip4/2.2.2.2/tcp/1/p2p/QmLive" ∷ []

configured_pair-IsDistinct : IsDistinct configured
configured_pair-IsDistinct = (
  (ground (arith, eq_iff "/ip4/1.1.1.1/tcp/1/p2p/QmDead" "/ip4/2.2.2.2/tcp/1/p2p/QmLive"), tt),
  (tt, tt),
)

abbrev crawled : Option Snapshot
crawled = (crawl_once no_ip one_digit "QmUs" environment configured no_places).0

abbrev read : Snapshot
read = elim crawled [ none ↦ default_snapshot 0 | some s ↦ s ]

crawled_lem : crawled ≡ some read
unfolding crawl_once has_dialable dial_all Bootstrap.new contains build_snapshot discover_models
    live rpc_find rpc_find_inner split_once lookup insert_sorted collect_model record_answer
    short_peer_id map_all text_set collect_capability observed_addrs excluded_peers rsplit_once
crawled_lem = refl

crawl_once_states_example :
    read.bootstrap_states
    ≡ map (λ a. state_of (answered_in (pass_log one_digit environment configured) a)) configured
crawl_once_states_example =
    crawl_once_states no_ip one_digit "QmUs" environment configured no_places read crawled_lem
      configured_pair-IsDistinct

run_crawler-publish_all_example :
    (run_crawler no_ip one_digit "QmUs" configured
        (environment ∷ environment ∷ [])
        no_places
        (new 0)
      ≡ publish_all (new 0) (
          snapshots_of no_ip one_digit "QmUs" configured
            (environment ∷ environment ∷ [])
            no_places))
    × All IsCrawled
        (snapshots_of no_ip one_digit "QmUs" configured (environment ∷ environment ∷ []) no_places)
run_crawler-publish_all_example =
    run_crawler-publish_all no_ip one_digit "QmUs" configured (environment ∷ environment ∷ [])
      no_places (new 0)

abbrev whole_floats : FloatOps
whole_floats = record { of_usize = λ n. n; div = λ a b. a; mul = λ a b. a; sum = λ l. 0 }

gauges_test :
    (metrics whole_floats
      (λ t. t)
      (run_crawler no_ip one_digit "QmUs" configured (environment ∷ []) no_places (new 0))
      none).nodes
    ≡ (metrics whole_floats
        (λ t. t)
        (run_crawler no_ip one_digit "QmUs" configured (environment ∷ []) no_places (new 0))
        none).peers
gauges_test =
    metrics-run_crawler no_ip one_digit "QmUs" configured (environment ∷ []) no_places 0
      whole_floats (λ t. t) none
