-- ===== src/Tests/Circuits.antt =====
-- A peer that dialed in through a relay.
use kwaai_net_map.Prelude.{String, false, Option, none, some, ◌≡◌, refl}
use kwaai_net_map.Text.{contains}
use kwaai_net_map.Multiaddr.{IpAddr, v4, relay_peer_id_of, relay_ip_of, public_ip_of}
use kwaai_net_map.Observed.{Conn, Direction, circuit_addr}
use kwaai_net_map.Observed.Circuits.{relay_addr, listener, circuit_addr-read}

abbrev at_relay : String
at_relay = "/ip4/5.6.7.8/tcp/4001"

abbrev dialed_in : Conn
dialed_in = record {
  addr = "/p2p/QmPeer";
  direction = Direction.inbound;
  via = some (listener at_relay "QmRelay");
  dcutr = false;
}

abbrev any_ip : String → Option IpAddr
any_ip s = some (v4 5 6 7 8)

plain_relay : contains (relay_addr at_relay "QmRelay") "/p2p-circuit" ≡ false
unfolding contains
plain_relay = refl

circuit_addr-read_example :
    (relay_peer_id_of (circuit_addr "QmPeer" dialed_in) ≡ some "QmRelay")
    × (relay_ip_of any_ip (circuit_addr "QmPeer" dialed_in)
        ≡ public_ip_of any_ip (relay_addr at_relay "QmRelay"))
    × (public_ip_of any_ip (circuit_addr "QmPeer" dialed_in) ≡ none)
circuit_addr-read_example =
    circuit_addr-read any_ip "QmPeer" at_relay "QmRelay" dialed_in refl plain_relay refl
