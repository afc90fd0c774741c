-- ===== src/Assemble.antt =====
-- The snapshot of one crawl: `build_snapshot`, `locate_row`, `peer_ip_info_for`, `model_name` and
-- `top_contributors` of map-server/src/crawler.rs.
pub mod Ranking
pub mod Best
pub mod Rows
pub mod Build
pub mod Health
pub mod Reports
pub mod Issues
pub mod Peers
pub mod Panic
pub mod Shuffles
pub mod Ids
pub mod Total
pub mod Contributors
use kwaai_net_map.Prelude.{
  ℕ, ◌+◌, String, Bool, true, false, not, ◌&&◌, ◌||◌, Option, none, some, List, [], ◌∷◌, ◌++◌, map,
  ◌==◌, ltb, leb, eqb, if◌then◌else◌, ◌>>=◌, or_else, map_option, is_some, is_empty, unwrap_or, any,
  select, filter_map, find_map, length, take, Assoc, keys, values, lookup, or_insert,
}
use kwaai_net_map.Prelude.Int.{ℤ, pos, ltb_ℤ, eqb_ℤ, ◌+ℤ◌, ◌-ℤ◌}
use kwaai_net_map.Prelude.F64.{F64, total_le, gt, feq}
use kwaai_net_map.Prelude.Sets.{extend_nat}
use kwaai_net_map.Prelude.Sorting.{before, member, text_set, insert_sorted, sort}
use kwaai_net_map.Text.{split_once, rsplit_once, trim_end_slash}
use kwaai_net_map.Snapshot.{
  DateTime, ServerInfo, Location, via_relay, PeerIpInfo, default_peer_ip_info, PeerSpan, ServerRow,
  ModelReport, Contributor, ReachabilityIssue, BlockSpan, PeerRow, Snapshot,
}
use kwaai_net_map.Snapshot.ShortId.{short_peer_id}
use kwaai_net_map.Observed.{Reachability, Observed, as_str}
use kwaai_net_map.Multiaddr.{relay_peer_id_of}
use kwaai_net_map.GeoIp.{via_relay_at, is_circuit_addr}

pub record Model : Type 0 where
  pub dht_prefix : String
  pub repository : String
  pub num_blocks : ℤ

-- The block numbers are indices of query results, so none is negative.
pub record PeerModelEntry : Type 0 where
  pub blocks : List ℕ
  pub info : ServerInfo

-- Every step of the list, or the first panic.
unfoldable pub map_all {ℓ κ} : {A : Type ℓ} {B : Type κ} → (A → Option B) → List A → Option (List B)
map_all f [] = some []
map_all f (x ∷ l) = do y ← f x; ys ← map_all f l; some (y ∷ ys)

abbrev pub is_online : ServerInfo → Bool
is_online info = info.state == "online"

-- `name.rsplit('/').next()`
unfoldable pub last_segment : String → String
last_segment name = elim (rsplit_once "/" name) [ none ↦ name | some e ↦ e.1 ]

unfoldable pub model_name : String → String → String
model_name repository dht_prefix =
    let path : String = elim (split_once "://" repository) [ none ↦ repository | some e ↦ e.1 ] in
    elim (split_once "/" path) [
      | none ↦ dht_prefix
      | some e ↦ if not (e.1 == "") then trim_end_slash e.1 else dht_prefix
    ]

-- A relay that was located, and not at (0.0, 0.0).
abbrev pub is_placed : Location → Bool
is_placed l = l.status == "success" && not (feq l.lat 0 && feq l.lon 0)

unfoldable pub borrow : Assoc Location → String → Option Location
unfolding relay_peer_id_of
borrow known addr = do
  id ← relay_peer_id_of addr
  relay ← lookup id known
  if is_placed relay then some (via_relay_at relay) else none

-- `locate` is `geo.locate`.
unfoldable pub locate_row : (List String → Location) → List String → Assoc Location → Location
unfolding borrow
locate_row locate peer_addrs known =
    let loc = locate peer_addrs in
    if loc.status == "success" || not (any is_circuit_addr peer_addrs)
    then loc
    else unwrap_or (find_map (borrow known) peer_addrs) loc

abbrev pub is_true : Option Bool → Bool
is_true none = false
is_true (some b) = b

abbrev pub is_inbound : Reachability → Bool
is_inbound Reachability.inbound = true
is_inbound _ = false

unfoldable pub peer_ip_info_for :
    (List String → Location) → Option Observed → Option Bool → Assoc Location → PeerIpInfo
unfolding locate_row as_str
peer_ip_info_for locate none using_relay known = default_peer_ip_info
peer_ip_info_for locate (some o) using_relay known =
    if is_inbound o.reachability && is_true using_relay
    then record {
      location = via_relay;
      multiaddrs = [];
      reachability = some (as_str Reachability.relayed);
    }
    else record {
      location = locate_row locate o.addrs known;
      multiaddrs = o.addrs;
      reachability = some (as_str o.reachability);
    }
