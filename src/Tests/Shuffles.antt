-- ===== src/Tests/Shuffles.antt =====
-- A map with two peers, in both orders.
use kwaai_net_map.Prelude.{
  String, Bool, true, false, Option, none, lookup, Bool-cases, inl, inr, List, [], ◌∷◌, ◌≡◌,
  map_option, values, ◌++◌, Assoc, ◌==◌, eq_iff, arith,
}
use kwaai_net_map.Prelude.Int.{pos}
use kwaai_net_map.Snapshot.{
  ServerInfo, default_server_info, Location, unknown, Snapshot, Contributor,
}
use kwaai_net_map.Observed.{Observed, Reachability}
use kwaai_net_map.Assemble.{Model, PeerModelEntry}
use kwaai_net_map.Assemble.Build.{Tally, visit_peers, build_snapshot}
use kwaai_net_map.Prelude.Shuffle.{same, swap}
use kwaai_net_map.Assemble.Shuffles.Same.{left}
use kwaai_net_map.Assemble.Shuffles.Blocks.{ShuffleEach}
use kwaai_net_map.Assemble.Shuffles.Whole.{without_contributors, build_snapshot-Shuffle}
use kwaai_net_map.Assemble.Shuffles.Order.{visit_peers-Shuffle}

abbrev anywhere : List String → Location
anywhere addrs = unknown

abbrev online : ServerInfo
online = record default_server_info { state = "online"; end_block = pos 2 }

abbrev small : Model
small = record { dht_prefix = "bloom"; repository = ""; num_blocks = pos 2 }

abbrev first : String × PeerModelEntry
first = ("QmA", record { blocks = 0 ∷ 1 ∷ []; info = online })

abbrev second : String × PeerModelEntry
second = ("QmB", record { blocks = 1 ∷ []; info = online })

abbrev fresh : Tally
fresh = record { covered = []; issues = []; server_rows = [] }

differ : ("QmA" == "QmB") ≡ false
differ = ground (arith, eq_iff "QmA" "QmB")

abbrev timed_out : Assoc String
timed_out = ("QmA", "late") ∷ ("QmB", "refused") ∷ []

visits_test :
    map_option (left small) (visit_peers anywhere [] [] timed_out (first ∷ second ∷ []) fresh)
    ≡ map_option (left small) (visit_peers anywhere [] [] timed_out (second ∷ first ∷ []) fresh)
visits_test =
    visit_peers-Shuffle anywhere [] [] timed_out small (first ∷ second ∷ []) (second ∷ first ∷ [])
      fresh (swap differ)

shuffled : ShuffleEach (("bloom", first ∷ second ∷ []) ∷ []) (("bloom", second ∷ first ∷ []) ∷ [])
unfolding lookup
shuffled prefix = elim (Bool-cases ("bloom" == prefix)) [
  | inl here ↦ rw here (swap differ)
  | inr other ↦ rw other tt
]

abbrev seen : Bool → Observed
seen kad = record {
  reachability = Reachability.direct;
  addrs = [];
  kwaai_kad = kad;
  agent_version = none;
}

abbrev rear_first : Assoc Contributor → List Contributor
rear_first [] = []
rear_first (e ∷ best) = rear_first best ++ e.1 ∷ []

abbrev build :
    (Assoc Contributor → List Contributor) → Assoc PeerModelEntry → Assoc Observed → Option Snapshot
build into_values peers addrs = map_option without_contributors (
    build_snapshot into_values anywhere 5 [] (small ∷ []) (("bloom", peers) ∷ []) [] addrs timed_out
      [])

build_snapshot-Shuffle_example :
    build values (first ∷ second ∷ []) (("QmC", seen true) ∷ ("QmA", seen false) ∷ [])
    ≡ build rear_first (second ∷ first ∷ []) (("QmA", seen false) ∷ ("QmC", seen true) ∷ [])
build_snapshot-Shuffle_example =
    build_snapshot-Shuffle values rear_first anywhere 5 [] (small ∷ []) timed_out []
      (("bloom", first ∷ second ∷ []) ∷ []) (("bloom", second ∷ first ∷ []) ∷ []) [] []
      (("QmC", seen true) ∷ ("QmA", seen false) ∷ [])
      (("QmA", seen false) ∷ ("QmC", seen true) ∷ []) shuffled same
      (swap (ground (arith, eq_iff "QmC" "QmA")))
