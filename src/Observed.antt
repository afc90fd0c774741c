-- ===== src/Observed.antt =====
-- Connections, and the verdict on how a peer is reached: `Conn`, `Reachability`, `Observed`,
-- `classify`, `observed_addrs`, `excluded_peers` and `trailing_peer_id` of map-server/src/crawler.rs.
pub mod Verdict
pub mod Grouping
pub mod Circuits
use kwaai_net_map.Prelude.{
  String, Bool, true, false, Option, none, some, List, [], ◌∷◌, ◌++◌, map, ◌==◌, ◌&&◌, ◌||◌, not,
  any, select, filter_map, is_empty, is_some, or_else, if◌then◌else◌, Assoc, ◌>>=◌,
}
use kwaai_net_map.Text.{append, contains, starts_with, rsplit_once}

pub data Direction : Type 0 where
  inbound outbound : Direction

pub record Conn : Type 0 where
  pub addr : String
  pub direction : Direction
  pub via : Option String
  pub dcutr : Bool

pub data Reachability : Type 0 where
  direct punched relayed inbound : Reachability

unfoldable pub as_str : Reachability → String
as_str Reachability.direct = "direct"
as_str Reachability.punched = "punched"
as_str Reachability.relayed = "relayed"
as_str Reachability.inbound = "inbound"

pub record Observed : Type 0 where
  pub addrs : List String
  pub reachability : Reachability
  pub agent_version : Option String
  pub kwaai_kad : Bool

abbrev pub is_circuit : Conn → Bool
is_circuit c = contains c.addr "/p2p-circuit" || is_some c.via

abbrev pub is_outbound : Direction → Bool
is_outbound Direction.inbound = false
is_outbound Direction.outbound = true

abbrev pub is_direct : Conn → Bool
is_direct c = is_outbound c.direction && not (is_circuit c)

-- An inbound relayed connection's address is rebuilt from our circuit listener.
abbrev pub circuit_addr : String → Conn → String
circuit_addr peer_id c = elim c.via [
  | some via ↦ append via (append "/p2p/" peer_id)
  | none ↦ c.addr
]

abbrev pub verdict : List String → Reachability → Observed
verdict addrs r = record {
  addrs = addrs;
  reachability = r;
  agent_version = none;
  kwaai_kad = false;
}

unfoldable pub classify : String → List Conn → Observed
classify peer_id conns =
    if any (λ c. c.dcutr) conns
    then verdict (map (λ c. c.addr) (select (λ c. c.dcutr) conns)) Reachability.punched
    else let direct = map (λ c. c.addr) (select is_direct conns) in
      if not (is_empty direct)
      then verdict direct Reachability.direct
      else let relayed = map (circuit_addr peer_id) (select is_circuit conns) in
        if not (is_empty relayed)
        then verdict relayed Reachability.relayed
        else verdict (map (λ c. c.addr) conns) Reachability.inbound

-- One entry of `list_peers`: a connection, with what identify said of its peer.
pub record PeerInfo : Type 0 where
  pub peer_id : String
  pub addr : String
  pub direction : Direction
  pub via : Option String
  pub dcutr : Bool
  pub agent_version : Option String
  pub protocols : List String

-- `Seen`
pub record Seen : Type 0 where
  pub conns : List Conn
  pub agent_version : Option String
  pub kwaai_kad : Bool

abbrev pub conn_of : PeerInfo → Conn
conn_of p = record { addr = p.addr; direction = p.direction; via = p.via; dcutr = p.dcutr }

abbrev pub speaks_kwaai : PeerInfo → Bool
speaks_kwaai p = any (λ name. starts_with name "/kwaai/kad/") p.protocols

abbrev pub unseen : Seen
unseen = record { conns = []; agent_version = none; kwaai_kad = false }

-- One round of the loop over the connections, on its peer's entry.
abbrev pub see : PeerInfo → Seen → Seen
see p s = record {
  conns = s.conns ++ conn_of p ∷ [];
  agent_version = or_else s.agent_version p.agent_version;
  kwaai_kad = s.kwaai_kad || speaks_kwaai p;
}

-- `seen.entry(id).or_default()`, changed in place.
unfoldable pub see_in : PeerInfo → Assoc Seen → Assoc Seen
see_in p [] = (p.peer_id, see p unseen) ∷ []
see_in p ((id, s) ∷ seen) =
    if id == p.peer_id then (id, see p s) ∷ seen else (id, s) ∷ see_in p seen

unfoldable pub see_all : Assoc Seen → List PeerInfo → Assoc Seen
see_all seen [] = seen
see_all seen (p ∷ peers) = see_all (see_in p seen) peers

abbrev pub observe : String → Seen → Observed
observe id s = record (classify id s.conns) {
  agent_version = s.agent_version;
  kwaai_kad = s.kwaai_kad;
}

-- `none` is a `list_peers` that failed.
unfoldable pub observed_addrs : Option (List PeerInfo) → Assoc Observed
unfolding see_all see_in classify
observed_addrs none = []
observed_addrs (some peers) = map (λ e. (e.0, observe e.0 e.1)) (see_all [] peers)

unfoldable pub trailing_peer_id : String → Option String
trailing_peer_id addr = do
  e ← rsplit_once "/p2p/" addr
  if not (e.1 == "") && not (contains e.1 "/") then some e.1 else none

-- The elements of the set; its order is that of the configuration.
unfoldable pub excluded_peers : String → List String → List String
unfolding trailing_peer_id
excluded_peers local bootstrap_peers = local ∷ filter_map trailing_peer_id bootstrap_peers
