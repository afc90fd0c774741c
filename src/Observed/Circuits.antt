-- ===== src/Observed/Circuits.antt =====
-- The address that `classify` builds for a peer that dialed in through a relay.
use text.Mathlib.TextLemmas.{append_assoc}
use kwaai_net_map.Prelude.{String, true, false, Option, some, none, ◌≡◌, refl, ap, ◌∙◌}
use kwaai_net_map.Text.{append, contains}
use kwaai_net_map.Text.Pieces.{lacks}
use kwaai_net_map.Text.Splits.{is_slash, split_once-slash, contains-middle, rsplit_once-last}
use kwaai_net_map.Multiaddr.{IpAddr, relay_peer_id_of, relay_ip_of, public_ip_of}
use kwaai_net_map.Observed.{Conn, circuit_addr}

-- A relay's address, with its peer id.
abbrev pub relay_addr : String → String → String
relay_addr base relay = append base (append "/p2p/" relay)

-- The circuit's listener address at the relay.
abbrev pub listener : String → String → String
listener base relay = append (relay_addr base relay) "/p2p-circuit"

circuit_addr-via :
    (peer_id base relay : String) (c : Conn)
    → c.via ≡ some (listener base relay)
    → circuit_addr peer_id c
      ≡ append (relay_addr base relay) (append "/p2p-circuit" (append "/p2p/" peer_id))
circuit_addr-via peer_id base relay c e =
    rw e (append_assoc (relay_addr base relay) "/p2p-circuit" (append "/p2p/" peer_id))

relay_peer_id_of-listener :
    (peer_id base relay : String)
    → lacks is_slash relay ≡ true
    → contains (relay_addr base relay) "/p2p-circuit" ≡ false
    → relay_peer_id_of
        (append (relay_addr base relay) (append "/p2p-circuit" (append "/p2p/" peer_id)))
      ≡ some relay
unfolding relay_peer_id_of
relay_peer_id_of-listener peer_id base relay bare plain =
    rw
      (
        split_once-slash "/" "p2p-circuit" refl refl (relay_addr base relay)
            (append "/p2p/" peer_id) plain,
        rsplit_once-last base relay bare,
      )
      refl

relay_ip_of-listener :
    (parse_ip : String → Option IpAddr) (peer_id base relay : String)
    → contains (relay_addr base relay) "/p2p-circuit" ≡ false
    → relay_ip_of parse_ip
        (append (relay_addr base relay) (append "/p2p-circuit" (append "/p2p/" peer_id)))
      ≡ public_ip_of parse_ip (relay_addr base relay)
unfolding relay_ip_of
relay_ip_of-listener parse_ip peer_id base relay plain =
    rw
      (split_once-slash "/" "p2p-circuit" refl refl (relay_addr base relay) (append "/p2p/" peer_id)
        plain)
      refl

public_ip_of-listener :
    (parse_ip : String → Option IpAddr) (peer_id base relay : String)
    → public_ip_of parse_ip
        (append (relay_addr base relay) (append "/p2p-circuit" (append "/p2p/" peer_id)))
      ≡ none
unfolding public_ip_of
public_ip_of-listener parse_ip peer_id base relay =
    rw (contains-middle "/p2p-circuit" (relay_addr base relay) (append "/p2p/" peer_id)) refl

-- When a peer dialed in through a relay, whose id has no slash and whose address holds no
-- "/p2p-circuit", the address that is rebuilt from the listener reads like an outbound circuit: the
-- relay's id and its public IP, if it has one, are read back from it, and no IP of the peer's own.
pub circuit_addr-read :
    (parse_ip : String → Option IpAddr) (peer_id base relay : String) (c : Conn)
    → lacks is_slash relay ≡ true
    → contains (relay_addr base relay) "/p2p-circuit" ≡ false
    → c.via ≡ some (listener base relay)
    → (relay_peer_id_of (circuit_addr peer_id c) ≡ some relay)
      × (relay_ip_of parse_ip (circuit_addr peer_id c)
          ≡ public_ip_of parse_ip (relay_addr base relay))
      × (public_ip_of parse_ip (circuit_addr peer_id c) ≡ none)
circuit_addr-read parse_ip peer_id base relay c bare plain via =
    let built = circuit_addr-via peer_id base relay c via in
    (
      ap relay_peer_id_of built ∙ relay_peer_id_of-listener peer_id base relay bare plain,
      ap (relay_ip_of parse_ip) built ∙ relay_ip_of-listener parse_ip peer_id base relay plain,
      ap (public_ip_of parse_ip) built ∙ public_ip_of-listener parse_ip peer_id base relay,
    )
