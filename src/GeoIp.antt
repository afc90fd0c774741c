-- ===== src/GeoIp.antt =====
-- `GeoIp`: where a peer is pinned, and the caches behind it, map-server/src/geoip.rs.
pub mod Placing
pub mod Warming
pub mod Answers
pub mod Asked
use kwaai_net_map.Prelude.{
  ℕ, zero, suc, String, Bool, true, false, not, ◌&&◌, ◌||◌, Option, none, some, List, [], ◌∷◌, ◌++◌,
  map, ◌==◌, leb, if◌then◌else◌, ◌>>=◌, or_else, map_option, is_some, is_empty, unwrap_or, any,
  select, filter_map, find_map, length, take, drop, Assoc, lookup, insert,
}
use kwaai_net_map.Prelude.F64.{F64}
use kwaai_net_map.Prelude.Sorting.{text_set}
use kwaai_net_map.Text.{append, contains, split_once}
use kwaai_net_map.Snapshot.{Location, unknown, via_relay}
use kwaai_net_map.Multiaddr.{
  IpAddr, ip_of, public_ip_of, relay_ip_of, relay_dns_of, first_public_ip, first_relay_ip,
  is_public,
}

-- The provider's answer for one address.
pub record ApiEntry : Type 0 where
  pub status : String
  pub country : String
  pub city : String
  pub lat : F64
  pub lon : F64
  pub isp : String
  pub query : String

-- An entry of the operator's file.
pub record StaticEntry : Type 0 where
  pub country : String
  pub city : String
  pub lat : F64
  pub lon : F64
  pub isp : String

pub record GeoIp : Type 0 where
  pub cache : Assoc Location
  pub dns : Assoc String
  pub enabled : Bool
  pub statics : Assoc Location

-- `load_static`, past the file's reading and parsing; `none` is a file that was not usable.
unfoldable pub load_static : Option (Assoc StaticEntry) → Assoc Location
load_static none = []
load_static (some entries) =
    map
      (λ (e : String × StaticEntry). (
        e.0,
        record {
          status = "success";
          country = e.1.country;
          city = e.1.city;
          lat = e.1.lat;
          lon = e.1.lon;
          isp = e.1.isp;
        },
      ))
      entries

unfoldable pub via_relay_at : Location → Location
via_relay_at relay =
    if not (relay.status == "success")
    then via_relay
    else record relay { city = "Via relay"; isp = append "Relay: " relay.isp }

unfoldable pub cached : GeoIp → String → Location
cached geo ip = unwrap_or (lookup ip geo.cache) unknown

abbrev pub is_circuit_addr : String → Bool
is_circuit_addr a = contains a "/p2p-circuit"

module _ (parse_ip : String → Option IpAddr) where
  -- The pin of an address's own IP.
  abbrev pub pin_of : Assoc Location → String → Option Location
  pin_of statics addr = do ip ← ip_of parse_ip addr; lookup ip statics

  abbrev pub relay_part : String → Option String
  relay_part a = map_option (λ (e : String × String). e.0) (split_once "/p2p-circuit" a)

  unfoldable pub static_for : GeoIp → List String → Option Location
  unfolding via_relay_at
  static_for geo addrs =
      if is_empty geo.statics
      then none
      else or_else (find_map (pin_of geo.statics) (select (λ a. not (is_circuit_addr a)) addrs))
          (map_option via_relay_at (find_map (pin_of geo.statics) (filter_map relay_part addrs)))

  abbrev pub dns_ip_of : GeoIp → String → Option String
  dns_ip_of geo a = do name ← relay_dns_of a; lookup name geo.dns

  -- The last two steps of `locate`, without a static pin or a public address.
  unfoldable pub locate_relay : GeoIp → List String → Location
  unfolding via_relay_at cached first_relay_ip
  locate_relay geo addrs =
      elim (or_else (first_relay_ip parse_ip addrs) (find_map (dns_ip_of geo) addrs)) [
        | some ip ↦ via_relay_at (cached geo ip)
        | none ↦ if any is_circuit_addr addrs then via_relay else unknown
      ]

  unfoldable pub locate : GeoIp → List String → Location
  unfolding static_for locate_relay cached first_public_ip
  locate geo addrs = elim (static_for geo addrs) [
    | some loc ↦ loc
    | none ↦ elim (first_public_ip parse_ip addrs) [
      | some ip ↦ cached geo ip
      | none ↦ locate_relay geo addrs
    ]
  ]

  -- One round of `resolve_relays`; `lookup_host` gives the addresses of a name, or fails.
  unfoldable pub resolve_one :
      (lookup_host : String → Option (List (IpAddr × String)))
      → String
      → GeoIp
      → Option String × GeoIp
  resolve_one lookup_host name geo = elim (lookup name geo.dns) [
    | some ip ↦ (some ip, geo)
    | none ↦
        if not geo.enabled
        then (none, geo)
        else elim (lookup_host name
            >>= find_map (λ (r : IpAddr × String). if is_public r.0 then some r.1 else none)) [
              | none ↦ (none, geo)
              | some ip ↦ (some ip, record geo { dns = insert name ip geo.dns })
            ]
  ]

  -- The loop of `resolve_relays` over the names.
  unfoldable pub resolve_names :
      (lookup_host : String → Option (List (IpAddr × String)))
      → List String
      → GeoIp
      → List String × GeoIp
  unfolding resolve_one
  resolve_names lookup_host [] geo = ([], geo)
  resolve_names lookup_host (name ∷ names) geo =
      let (found, geo') = resolve_one lookup_host name geo in
      let (out, geo'') = resolve_names lookup_host names geo' in
      (elim found [ none ↦ out | some ip ↦ ip ∷ out ], geo'')

  -- Every IP now known for the names, which are sorted and each taken once.
  unfoldable pub resolve_relays :
      (lookup_host : String → Option (List (IpAddr × String)))
      → List String
      → GeoIp
      → List String × GeoIp
  unfolding resolve_names
  resolve_relays lookup_host names geo = resolve_names lookup_host (text_set names) geo

-- `chunks(n)`, with fuel for the number of chunks.
unfoldable pub chunks {ℓ} : {A : Type ℓ} → ℕ → ℕ → List A → List (List A)
chunks zero n l = []
chunks (suc fuel) n [] = []
chunks (suc fuel) n (x ∷ l) = take n (x ∷ l) ∷ chunks fuel n (drop n (x ∷ l))

-- The addresses that `warm` asks about: those not cached, sorted and without repetition.
unfoldable pub pending : GeoIp → List String → List String
pending geo ips = text_set (select (λ ip. not (is_some (lookup ip geo.cache))) ips)

abbrev pub location_of : ApiEntry → Location
location_of e = record {
  status = e.status;
  country = e.country;
  city = e.city;
  lat = e.lat;
  lon = e.lon;
  isp = e.isp;
}

unfoldable pub store : Assoc Location → List ApiEntry → Assoc Location
store cache [] = cache
store cache (e ∷ entries) = store (insert e.query (location_of e) cache) entries

-- The batches in turn, up to the first that the provider fails; `none` is a failed `fetch_batch`.
unfoldable pub fetch_all :
    (List String → Option (List ApiEntry)) → List (List String) → Assoc Location → Assoc Location
unfolding store
fetch_all fetch [] cache = cache
fetch_all fetch (chunk ∷ batches) cache = elim (fetch chunk) [
  | none ↦ cache
  | some entries ↦ fetch_all fetch batches (store cache entries)
]

abbrev pub batches_of : List String → List (List String)
batches_of ips = chunks (length ips) 100 ips

unfoldable pub warm : (List String → Option (List ApiEntry)) → List String → GeoIp → GeoIp
unfolding fetch_all pending chunks
warm fetch ips geo =
    if not geo.enabled || leb 50000 (length geo.cache)
    then geo
    else record geo { cache = fetch_all fetch (batches_of (pending geo ips)) geo.cache }
