-- ===== src/Tests/Asked.antt =====
-- Two passes that see a private address, a public one and a relay's name, and a provider that
-- would place the private one.
use kwaai_net_map.Prelude.{
  ℕ, String, false, lookup, Option, none, some, List, [], ◌∷◌, map, ◌≡◌, refl, All, ◌==◌,
  if◌then◌else◌, Bool-cases, inl, inr, arith,
}
use mathlib.Core.Path.{subst}
use kwaai_net_map.Prelude.Sorting.{member}
use kwaai_net_map.Multiaddr.{
  IpAddr, v4, is_public, ip_of, public_ip_of, relay_ip_of, relay_dns_of, public_ips,
  relay_dns_names,
}
use kwaai_net_map.Multiaddr.Public.{IsPublicText}
use kwaai_net_map.GeoIp.{ApiEntry}
use kwaai_net_map.Observed.{observed_addrs}
use kwaai_net_map.Text.{contains, split_once, rsplit_once}
use kwaai_net_map.Cache.{new}
use kwaai_net_map.Pass.{Environment, flat_addrs, run_crawler}
use kwaai_net_map.Pass.Asked.{IsAlike, reask, run_crawler-reask}
use kwaai_net_map.Tests.Crawls.{one_digit}
use kwaai_net_map.Tests.Passes.{environment, configured, no_places, connection}

abbrev parse_ip : String → Option IpAddr
parse_ip s =
    if s == "10.0.0.7"
    then some (v4 10 0 0 7)
    else if s == "1.1.1.1"
    then some (v4 1 1 1 1)
    else if s == "9.9.9.9"
    then some (v4 9 9 9 9)
    else none

abbrev entry_for : String → ApiEntry
entry_for ip = record {
  status = "success";
  country = "Testland";
  city = "Norwell";
  lat = 1;
  lon = 2;
  isp = "";
  query = ip;
}

abbrev relay : List (IpAddr × String)
relay = (v4 9 9 9 9, "9.9.9.9") ∷ []

abbrev mixed : Environment ℕ String
mixed = record environment {
  lookup_host = λ name. some relay;
  fetch = λ batch. some (map entry_for batch);
  listed = some (
      connection "QmA" "/ip4/10.0.0.7/tcp/1" none
      ∷ connection "QmB" "/ip4/1.1.1.1/tcp/1" none
      ∷ connection "QmC" "/dns/relay.kwaai.ai/tcp/8000/p2p/QmRelay/p2p-circuit/p2p/QmC" none
      ∷ []);
}

-- Refuses a request that holds the private address.
abbrev refusing : Environment ℕ String → List String → Option (List ApiEntry)
refusing env batch = if member "10.0.0.7" batch then none else env.fetch batch

hidden : is_public (v4 10 0 0 7) ≡ false
unfolding is_public
hidden = refl

away : (batch : List String) → All (IsPublicText parse_ip) batch → member "10.0.0.7" batch ≡ false
away [] h = refl
away (ip ∷ batch) h = elim (Bool-cases (ip == "10.0.0.7")) [
  | inl here ↦ absurd (ground (arith, h.0, hidden))
  | inr other ↦ rw other (away batch h.1)
]

-- The public address and the relay's name are asked about, the private address is not.
asked_test :
    (public_ips parse_ip (flat_addrs (observed_addrs mixed.listed)) ≡ "1.1.1.1" ∷ [])
    × (relay_dns_names (flat_addrs (observed_addrs mixed.listed)) ≡ "relay.kwaai.ai" ∷ [])
unfolding observed_addrs public_ips relay_dns_names public_ip_of relay_ip_of relay_dns_of ip_of
    contains is_public split_once rsplit_once lookup flat_addrs
asked_test = (refl, refl)

relay_of : (found : List (IpAddr × String)) → some relay ≡ some found → relay ≡ found
relay_of found e = ground (arith, e)

mixed-IsAlike : IsAlike parse_ip one_digit "QmUs" refusing mixed
mixed-IsAlike = record {
  agree = λ batch h. rw (away batch h) refl;
  texts = λ name found e. subst (All (λ r. parse_ip r.1 ≡ some r.0)) (relay_of found e) (refl, tt);
}

run_crawler-reask_example :
    run_crawler parse_ip one_digit "QmUs" configured
      (map (reask parse_ip one_digit "QmUs" refusing) (mixed ∷ mixed ∷ []))
      no_places
      (new 0)
    ≡ run_crawler parse_ip one_digit "QmUs" configured (mixed ∷ mixed ∷ []) no_places (new 0)
run_crawler-reask_example =
    run_crawler-reask parse_ip one_digit "QmUs" refusing configured (mixed ∷ mixed ∷ []) no_places
      (new 0) (mixed-IsAlike, (mixed-IsAlike, tt)) tt
