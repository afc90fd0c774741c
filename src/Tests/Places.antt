-- ===== src/Tests/Places.antt =====
-- Addresses and their places.
use kwaai_net_map.Prelude.{
  ℕ, ◌+◌, ◌*◌, ◌^◌, ◌≤◌, String, true, not, ◌&&◌, ◌||◌, Option, none, some, List, [], ◌∷◌, map, ◌≡◌,
  refl, All, any, arith, is_some, lookup, length, ◌==◌, if◌then◌else◌,
}
use kwaai_net_map.Prelude.Sorting.{member}
use kwaai_net_map.Text.{contains, split_once}
use kwaai_net_map.Snapshot.{Location}
use kwaai_net_map.Multiaddr.{
  IpAddr, v4, v6, ip_of, is_public, public_ip_of, relay_dns_of, relay_ip_of, public_ips,
}
use kwaai_net_map.Multiaddr.Public.{
  IsPublicText, public_ips-IsPublicText, is_public-eq-not_withheld, is_public_link_local,
  is_public-eq-not_reserved_v6, reserved_ranges_v6, withheld_ranges, in_range, address,
}
use kwaai_net_map.GeoIp.{GeoIp, ApiEntry, locate, pending, batches_of, warm}
use kwaai_net_map.GeoIp.Placing.{locate_circuit}
use kwaai_net_map.GeoIp.Warming.{concat, pending_requests, cached_after_warm}

-- A parser that knows three addresses.
abbrev parse_ip : String → Option IpAddr
parse_ip s =
    if s == "93.184.216.34"
    then some (v4 93 184 216 34)
    else if s == "192.168.1.10"
    then some (v4 192 168 1 10)
    else if s == "198.18.0.10"
    then some (v4 198 18 0 10)
    else none

abbrev circuit : String
circuit = "/ip4/93.184.216.34/tcp/8000/p2p/QmRelay/p2p-circuit/p2p/QmPeer"

public_ip_tests :
    (public_ip_of parse_ip "/ip4/93.184.216.34/tcp/8000/p2p/QmAbc" ≡ some "93.184.216.34")
    × (public_ip_of parse_ip "/ip4/192.168.1.10/tcp/8000" ≡ none)
    × (public_ip_of parse_ip circuit ≡ none)
    × (relay_ip_of parse_ip circuit ≡ some "93.184.216.34")
unfolding public_ip_of relay_ip_of contains is_public ip_of split_once
public_ip_tests = (refl, refl, refl, refl)

relay_dns_tests :
    (relay_dns_of "/dns/bootstrap-1.kwaai.ai/tcp/8000/p2p/QmRelay/p2p-circuit/p2p/QmPeer"
      ≡ some "bootstrap-1.kwaai.ai")
    × (relay_dns_of "/dns4/node.example.com/tcp/8000" ≡ none)
unfolding relay_dns_of
relay_dns_tests = (refl, refl)

lookups_test :
    All (IsPublicText parse_ip) (public_ips parse_ip (circuit ∷ "/ip4/192.168.1.10/tcp/1" ∷ []))
lookups_test = public_ips-IsPublicText parse_ip (circuit ∷ "/ip4/192.168.1.10/tcp/1" ∷ [])

is_public-eq-not_withheld_example :
    is_public (v4 198 18 0 40)
    ≡ not (any (λ r. in_range r.0 r.1 (address 198 18 0 40)) withheld_ranges)
is_public-eq-not_withheld_example =
    is_public-eq-not_withheld 198 18 0 40 (omega arith) (omega arith) (omega arith) (omega arith)

-- Reserved addresses that are not kept back.
reserved_tests :
    (is_public (v4 240 0 0 1) ≡ true)
    × (is_public (v4 0 0 0 1) ≡ true)
    × (is_public (v4 192 0 0 1) ≡ true)
unfolding is_public
reserved_tests = (refl, refl, refl)

link_local_test : is_public (v6 (1018 * 2 ^ 118)) ≡ true
link_local_test = is_public_link_local (1018 * 2 ^ 118) (omega arith)

-- fe80::1
abbrev router : ℕ
router = 0xfe80 * 2 ^ 112 + 1

is_public-eq-not_reserved_v6_example :
    is_public (v6 router) ≡ not (any (λ r. in_range r.0 r.1 router) reserved_ranges_v6)
is_public-eq-not_reserved_v6_example = is_public-eq-not_reserved_v6 router (omega arith)

abbrev place : String → Location
place city = record {
  status = "success";
  country = "Testland";
  city = city;
  lat = 1;
  lon = 2;
  isp = "NAT";
}

abbrev geo : GeoIp
geo = record {
  cache = ("93.184.216.34", place "Norwell") ∷ [];
  dns = [];
  enabled = true;
  statics = ("198.18.0.10", place "North Pole") ∷ [];
}

located : (locate parse_ip geo ("/ip4/93.184.216.34/tcp/1" ∷ [])).city ≡ "Norwell"
unfolding locate lookup public_ip_of contains is_public ip_of split_once
located = refl

locate_circuit_example : (locate parse_ip geo (circuit ∷ [])).city ≡ "Via relay"
locate_circuit_example =
    locate_circuit parse_ip geo circuit []
      (let c : contains circuit "/p2p-circuit" ≡ true = unfold contains in refl in (c, tt))

abbrev seen : List String
seen = "93.184.216.34" ∷ "8.8.8.8" ∷ []

requests_test :
    (member "8.8.8.8" (pending geo seen)
      ≡ (not (is_some (lookup "8.8.8.8" geo.cache)) && member "8.8.8.8" seen))
    × (concat (batches_of (pending geo seen)) ≡ pending geo seen)
    × All (λ b. length b ≤ 100) (batches_of (pending geo seen))
requests_test = pending_requests geo seen "8.8.8.8"

-- A provider that answers every address.
abbrev entry_for : String → ApiEntry
entry_for ip = record {
  status = "success";
  country = "";
  city = "";
  lat = 0;
  lon = 0;
  isp = "";
  query = ip;
}

abbrev provider : List String → Option (List ApiEntry)
provider batch = some (map entry_for batch)

asked_back : (batch : List String) → map (λ e. e.query) (map entry_for batch) ≡ batch
asked_back [] = refl
asked_back (ip ∷ batch) = cc (asked_back batch)

cached_seen_test :
    is_some (lookup "8.8.8.8" (warm provider seen geo).cache)
    ≡ (member "8.8.8.8" seen || is_some (lookup "8.8.8.8" geo.cache))
cached_seen_test =
    cached_after_warm provider (λ batch small. (map entry_for batch, refl, asked_back batch)) geo
      seen "8.8.8.8" refl (omega arith)
