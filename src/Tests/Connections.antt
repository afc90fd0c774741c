-- ===== src/Tests/Connections.antt =====
-- Connections and verdicts.
use kwaai_net_map.Prelude.{
  String, Bool, true, false, Option, none, some, List, [], ◌∷◌, ◌≡◌, ◌↔◌, refl, All, Any,
}
use kwaai_net_map.Text.{contains, rsplit_once}
use kwaai_net_map.Observed.{Conn, Direction, Reachability, classify, trailing_peer_id}
use kwaai_net_map.Observed.Verdict.{
  IsPlain, IsDialed, IsPunched, ComesFrom, classify_punched_direct, classify_inbound,
  classify_direct_addrs,
}

abbrev conn : String → Direction → Option String → Bool → Conn
conn addr direction via dcutr = record {
  addr = addr;
  direction = direction;
  via = via;
  dcutr = dcutr;
}

-- A symmetric NAT's random port.
abbrev nat_only : List Conn
nat_only = conn "/ip4/198.18.0.41/tcp/28456" Direction.inbound none false ∷ []

abbrev dialed_too : List Conn
dialed_too =
    conn "/ip4/93.184.216.34/tcp/54321" Direction.inbound none false
    ∷ conn "/ip4/93.184.216.34/tcp/8080" Direction.outbound none false
    ∷ []

abbrev punched_too : List Conn
punched_too =
    conn "/ip4/198.18.0.10/tcp/8000/p2p/QmRelay/p2p-circuit/p2p/Qm" Direction.outbound none false
    ∷ conn "/ip4/198.18.0.31/tcp/8080" Direction.outbound none true
    ∷ []

abbrev through_listener : List Conn
through_listener =
    conn "/p2p/Qm" Direction.inbound (some "/ip4/198.18.0.10/tcp/8000/p2p/QmRelay/p2p-circuit")
      false
    ∷ []

inbound_test : (classify "Qm" nat_only).addrs ≡ "/ip4/198.18.0.41/tcp/28456" ∷ []
unfolding classify contains
inbound_test = refl

punched_test : (classify "Qm" punched_too).reachability ≡ Reachability.punched
unfolding classify
punched_test = refl

direct_test : (classify "Qm" dialed_too).reachability ≡ Reachability.direct
unfolding classify contains
direct_test = refl

rebuilt_test :
    (classify "Qm" through_listener).addrs
    ≡ "/ip4/198.18.0.10/tcp/8000/p2p/QmRelay/p2p-circuit/p2p/Qm" ∷ []
unfolding classify contains
rebuilt_test = refl

trailing_test :
    (trailing_peer_id "/dns4/bootstrap1/tcp/8000/p2p/12D3KooWBoot" ≡ some "12D3KooWBoot")
    × (trailing_peer_id "/dns4/bootstrap1/tcp/8000" ≡ none)
unfolding trailing_peer_id rsplit_once contains
trailing_test = (refl, refl)

classify_punched_direct_example :
    (((classify "Qm" punched_too).reachability ≡ Reachability.punched) ↔ Any IsPunched punched_too)
    × (((classify "Qm" punched_too).reachability ≡ Reachability.direct)
        ↔ (All (λ c. c.dcutr ≡ false) punched_too × Any IsDialed punched_too))
    × (((classify "Qm" punched_too).reachability ≡ Reachability.relayed) ↔ (
        All (λ c. (c.dcutr ≡ false) × ¬ IsDialed c) punched_too
        × Any (λ c. ¬ IsPlain c) punched_too))
    × (((classify "Qm" punched_too).reachability ≡ Reachability.inbound)
        ↔ All (λ c. (c.direction ≡ Direction.inbound) × IsPlain c × (c.dcutr ≡ false)) punched_too)
classify_punched_direct_example = classify_punched_direct "Qm" punched_too

nat_only_test :
    ((classify "Qm" nat_only).reachability ≡ Reachability.inbound)
    ↔ All (λ c. (c.direction ≡ Direction.inbound) × IsPlain c × (c.dcutr ≡ false)) nat_only
nat_only_test = classify_inbound "Qm" nat_only

classify_direct_addrs_example : All (ComesFrom IsDialed dialed_too) (classify "Qm" dialed_too).addrs
classify_direct_addrs_example = classify_direct_addrs "Qm" dialed_too direct_test
