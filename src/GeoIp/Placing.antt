-- ===== src/GeoIp/Placing.antt =====
-- Where `locate` puts a peer.
use kwaai_net_map.Prelude.{
  String, Bool, true, not, Option, none, some, List, [], ◌∷◌, ◌≡◌, refl, inl, inr, if◌then◌else◌,
  or_else, map_option, is_empty, any, select, find_map, filter_map, All, arith, Bool-cases,
  Option-cases,
}
use kwaai_net_map.Snapshot.{Location, unknown, via_relay}
use kwaai_net_map.Multiaddr.{IpAddr, public_ip_of, first_public_ip, first_relay_ip}
use kwaai_net_map.GeoIp.{
  GeoIp, via_relay_at, cached, is_circuit_addr, pin_of, relay_part, static_for, dns_ip_of,
  locate_relay, locate,
}

abbrev pub IsCircuit : String → Type 0
IsCircuit a = is_circuit_addr a ≡ true

city-via_relay_at : (l : Location) → (via_relay_at l).city ≡ "Via relay"
unfolding via_relay_at
city-via_relay_at l = ground arith

any_of_All : (p : String → Bool) (a : String) (l : List String) → p a ≡ true → any p (a ∷ l) ≡ true
any_of_All p a l h = ground arith

select-nil :
    (addrs : List String) → All IsCircuit addrs → select (λ a. not (is_circuit_addr a)) addrs ≡ []
select-nil [] h = refl
select-nil (a ∷ addrs) h = ground (arith, select-nil addrs h.1)

city_of_borrowed :
    (o : Option Location) (loc : Location)
    → map_option via_relay_at o ≡ some loc
    → loc.city ≡ "Via relay"
city_of_borrowed none loc e = cc
city_of_borrowed (some relay) loc e = ground (arith, city-via_relay_at relay)

city_of_relay :
    (geo : GeoIp) (o : Option String) (b : Bool)
    → b ≡ true
    → (let l : Location = elim o [
      | some ip ↦ via_relay_at (cached geo ip)
      | none ↦ if b then via_relay else unknown
    ] in
        l).city
      ≡ "Via relay"
city_of_relay geo none b h = rw h
city_of_relay geo (some ip) b h = city-via_relay_at (cached geo ip)

module _ (parse_ip : String → Option IpAddr) where
  public_ip_of_circuit : (a : String) → IsCircuit a → public_ip_of parse_ip a ≡ none
  unfolding public_ip_of
  public_ip_of_circuit a h = rw h

  first_public_ip_circuit :
      (addrs : List String) → All IsCircuit addrs → first_public_ip parse_ip addrs ≡ none
  unfolding first_public_ip
  first_public_ip_circuit [] h = refl
  first_public_ip_circuit (a ∷ addrs) h =
      ground (arith, public_ip_of_circuit a h.0, first_public_ip_circuit addrs h.1)

  static_for_circuit :
      (geo : GeoIp) (addrs : List String) (loc : Location)
      → All IsCircuit addrs
      → static_for parse_ip geo addrs ≡ some loc
      → loc.city ≡ "Via relay"
  unfolding static_for
  static_for_circuit geo addrs loc h e = elim (Bool-cases (is_empty geo.statics)) [
    | inl unused ↦ ground arith
    | inr used ↦
        city_of_borrowed
          (find_map (pin_of parse_ip geo.statics) (filter_map (relay_part parse_ip) addrs)) loc
          (ground (arith, select-nil addrs h))
  ]

  locate_relay_circuit :
      (geo : GeoIp) (a : String) (addrs : List String)
      → IsCircuit a
      → (locate_relay parse_ip geo (a ∷ addrs)).city ≡ "Via relay"
  unfolding locate_relay
  locate_relay_circuit geo a addrs h =
      city_of_relay geo
        (or_else (first_relay_ip parse_ip (a ∷ addrs))
          (find_map (dns_ip_of parse_ip geo) (a ∷ addrs)))
        _ (any_of_All is_circuit_addr a addrs h)

  -- A peer that is reached through relays alone is never placed in a city of its own: if every one of
  -- its addresses, of which there is one at least, is a circuit, its city reads "Via relay", whatever
  -- the operator's file and the caches hold.
  pub locate_circuit :
      (geo : GeoIp) (a : String) (addrs : List String)
      → All IsCircuit (a ∷ addrs)
      → (locate parse_ip geo (a ∷ addrs)).city ≡ "Via relay"
  unfolding locate
  locate_circuit geo a addrs h = elim (Option-cases (static_for parse_ip geo (a ∷ addrs))) [
    | inl unpinned ↦
        rw (unpinned, locate)
          (rw (first_public_ip_circuit (a ∷ addrs) h) (locate_relay_circuit geo a addrs h.0))
    | inr (loc, pinned) ↦ rw (pinned, locate) (static_for_circuit geo (a ∷ addrs) loc h pinned)
  ]
