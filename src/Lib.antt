-- ===== src/Lib.antt =====
-- A model of the map server of KwaaiNet, and what is proved of it.
--
-- The server crawls a DHT once a minute and serves what it read. A pass dials the configured
-- bootstraps, asks those that live for the registry of models, for the block keys of each model and
-- for the capability registries, dials the peers found, classifies the connections, locates the
-- peers, and builds a snapshot; the cache merges it with the one that is served. The HTTP routes read
-- the cache, and one of them probes a peer live.
--
-- Files, with the code that they model (paths are those of the repository):
--   Snapshot      map-server/src/snapshot.rs: the records of a crawl; Snapshot/ShortId the short id.
--   Bootstrap     map-server/src/crawler.rs, `BootstrapSet` and the dials of `crawl_once`.
--   Dht           map-server/src/dht.rs, and `servers_in` of crawler.rs; Dht/Wire the values.
--   Crawl         map-server/src/crawler.rs, from `rpc_find` to `collect_capability`.
--   Observed      map-server/src/crawler.rs, `classify`, `observed_addrs`, `excluded_peers`.
--   Multiaddr     map-server/src/geoip.rs, what is read out of an address, and `is_public`.
--   GeoIp         map-server/src/geoip.rs, `GeoIp`: `locate`, `resolve_relays`, `warm`.
--   Assemble      map-server/src/crawler.rs, `build_snapshot` and its helpers; Assemble/Build the
--                 pass over the models, Assemble/Rows the rows, Assemble/Ranking
--                 `top_contributors`.
--   Cache         map-server/src/cache.rs, `merge_crawl` and `node_entries` of crawler.rs.
--   Probe         map-server/src/reachability.rs.
--   Pass          map-server/src/crawler.rs, `crawl_once`, `connect_discovered_peers`, `run_crawler`.
--   Routes        map-server/src/routes.rs, the routes; Routes/Exposition the text of `metrics`.
--   Startup       map-server/src/main.rs, observer.rs, state.rs, and `GeoIp::from_env` of geoip.rs.
--   Cache/Swaps   the steps of `publish` in cache.rs, between those of a request that reads.
--   Document      the JSON of map-server/src/snapshot.rs, by the fields and the serde attributes of
--                 its structs: Document writes it, Document/Reading reads it, and Document/Seen says
--                 what a reader needs and sees. GeoIp/Answers the JSON that geoip.rs reads.
--   Text, Prelude strings, lists, maps, sets and numbers. Tests has concrete runs.
-- The modules below these hold the proofs and are named for what they prove.
--
-- A struct is a record with the same fields, an enum a data type. A `HashMap` or a `BTreeMap` is an
-- association list: in the order of its keys for a `BTreeMap`, in some order for a `HashMap`;
-- Prelude/Shuffle has the lists of one map, and Assemble/Shuffles/Maps the maps as a quotient. A set of
-- block numbers is a list in ascending order. `i64` is the integers of Prelude/Int: no operation of
-- the modelled code but the subtraction in `top_contributors` can leave the range, and the theorem on
-- it has the bounds as hypotheses. A `u32` wraps. An `f64` is its bit pattern, and Prelude/F64 has
-- the comparisons; the arithmetic is a parameter. Text is compared by bytes, and `none` stands for a
-- panic where a slice can panic.
--
-- Parameters stand for the libraries: the swarm (`Network`, with the state of the network as an
-- explicit argument; `Environment` holds what one pass meets), MessagePack (`Msgpack`), the parsers of
-- IP addresses and of multiaddrs, the geolocation provider, the resolver and the listener. Time is an
-- argument. The only fuel is that of `chunks`, the length of the list, which is enough since every
-- chunk takes an element.
--
-- JSON is a tree of values in Prelude/Json. A struct's members stand in the order of its fields, less
-- those that an attribute skips; its reader looks each field up by its name, and an unknown member is
-- ignored. A float that is no number is `null`, as `serde_json` has it.
--
-- `publish` is one step in Cache; Cache/Swaps has its steps, interleaved with those of a reader. `check`
-- takes the cache of the probes twice, as the check begins and as its dial has ended: other probes
-- may have ended in between. A listed wildcard origin makes `cors_of` panic, as the CORS layer documents.
--
-- Not modelled: the text of the JSON, the JSON of the answers other than the state, a struct that is
-- given as an array or with a member twice, the sockets, the page, and the log lines.
pub mod Prelude
pub mod Text
pub mod Snapshot
pub mod Bootstrap
pub mod Observed
pub mod Cache
pub mod Multiaddr
pub mod GeoIp
pub mod Assemble
pub mod Dht
pub mod Probe
pub mod Crawl
pub mod Pass
pub mod Document
pub mod Startup
pub mod Routes
pub mod Tests
