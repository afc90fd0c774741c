-- ===== src/Multiaddr.antt =====
-- The addresses in multiaddrs: `ip_of`, `public_ip_of`, `relay_ip_of`, `relay_dns_of`,
-- `relay_peer_id_of`, `is_public`, `public_ips` and `relay_dns_names` of map-server/src/geoip.rs.
pub mod Public
use Prim.Native.Nat.{bit_and}
use kwaai_net_map.Prelude.{
  ℕ, ◌/◌, ◌^◌, String, Bool, true, false, not, ◌&&◌, ◌||◌, Option, none, some, List, [], ◌∷◌, ◌++◌,
  ◌==◌, eqb, leb, ltb, if◌then◌else◌, ◌>>=◌, map_option, is_some, filter_map, find_map,
}
use kwaai_net_map.Text.{contains, split_once, rsplit_once, split_slash}

-- `std::net::IpAddr`: the octets of an IPv4 address, or the 128 bits of an IPv6 one.
pub data IpAddr : Type 0 where
  v4 : ℕ → ℕ → ℕ → ℕ → IpAddr
  v6 : ℕ → IpAddr

-- The ranges of `std::net::Ipv4Addr`'s predicates.
abbrev pub is_private : ℕ → ℕ → Bool
is_private a b = eqb a 10 || (eqb a 172 && (leb 16 b && leb b 31)) || (eqb a 192 && eqb b 168)

abbrev pub is_documentation : ℕ → ℕ → ℕ → Bool
is_documentation a b c =
    (eqb a 192 && eqb b 0 && eqb c 2)
    || (eqb a 198 && eqb b 51 && eqb c 100)
    || (eqb a 203 && eqb b 0 && eqb c 113)

abbrev pub is_broadcast : ℕ → ℕ → ℕ → ℕ → Bool
is_broadcast a b c d = eqb a 255 && eqb b 255 && eqb c 255 && eqb d 255

abbrev pub is_unspecified : ℕ → ℕ → ℕ → ℕ → Bool
is_unspecified a b c d = eqb a 0 && eqb b 0 && eqb c 0 && eqb d 0

unfoldable pub is_public : IpAddr → Bool
is_public (v4 a b c d) = not (
    is_private a b
    || eqb a 127
    || (eqb a 169 && eqb b 254)
    || is_broadcast a b c d
    || is_documentation a b c
    || is_unspecified a b c d
    || (eqb a 198 && eqb (bit_and b 0xfe) 18)
    || (eqb a 100 && (leb 64 b && ltb b 128)))
is_public (v6 bits) = not (eqb bits 1 || eqb bits 0 || eqb (bit_and (bits / 2 ^ 120) 0xfe) 0xfc)

-- `split('/').skip(1)`
abbrev pub components : String → List String
components addr = elim (split_slash addr) [ [] ↦ [] | first ∷ parts ↦ parts ]

-- What follows the first component that passes the test; `none` at the end.
unfoldable pub value_of : (String → Bool) → List String → Option String
value_of is_proto [] = none
value_of is_proto (proto ∷ []) = none
value_of is_proto (proto ∷ value ∷ parts) =
    if is_proto proto then some value else value_of is_proto (value ∷ parts)

abbrev pub is_ip : String → Bool
is_ip proto = proto == "ip4" || proto == "ip6"

abbrev pub is_dns : String → Bool
is_dns proto = proto == "dns" || proto == "dns4" || proto == "dns6" || proto == "dnsaddr"

unfoldable pub relay_dns_of : String → Option String
unfolding value_of split_once split_slash
relay_dns_of addr = do e ← split_once "/p2p-circuit" addr; value_of is_dns (components e.0)

unfoldable pub relay_peer_id_of : String → Option String
relay_peer_id_of addr = do
  e ← split_once "/p2p-circuit" addr
  map_option (λ (f : String × String). f.1) (rsplit_once "/p2p/" e.0)

unfoldable pub relay_dns_names : List String → List String
relay_dns_names addrs = filter_map relay_dns_of addrs

-- `parse::<IpAddr>()` of the standard library is the parameter `parse_ip`.
module _ (parse_ip : String → Option IpAddr) where
  unfoldable pub ip_of : String → Option String
  unfolding value_of split_slash
  ip_of addr = do
    raw ← value_of is_ip (components addr)
    if is_some (parse_ip raw) then some raw else none

  unfoldable pub public_ip_of : String → Option String
  public_ip_of addr =
      if contains addr "/p2p-circuit"
      then none
      else do raw ← ip_of addr; ip ← parse_ip raw; if is_public ip then some raw else none

  unfoldable pub relay_ip_of : String → Option String
  relay_ip_of addr = do e ← split_once "/p2p-circuit" addr; public_ip_of e.0

  unfoldable pub public_ips : List String → List String
  public_ips addrs = filter_map public_ip_of addrs ++ filter_map relay_ip_of addrs

  unfoldable pub first_public_ip : List String → Option String
  first_public_ip addrs = find_map public_ip_of addrs

  unfoldable pub first_relay_ip : List String → Option String
  first_relay_ip addrs = find_map relay_ip_of addrs
