-- ===== src/Assemble/Shuffles/Maps.antt =====
-- `build_snapshot` of map-server/src/crawler.rs as a function of the crawl's hash maps, which have no
-- order of their entries.
use mathlib.Core.Path.{fun_ext}
use mathlib.Core.Quot
use mathlib.Core.Quot.{Quot}
use text.Mathlib.TextEquality.{IsScalar-prop}
use kwaai_net_map.Prelude.{String, Option, List, Assoc, ◌≡◌}
use kwaai_net_map.Prelude.Shuffle.{Shuffle}
use kwaai_net_map.Snapshot.{DateTime, ServerInfo, Location, Contributor, Snapshot}
use kwaai_net_map.Observed.{Observed}
use kwaai_net_map.Assemble.{Model, PeerModelEntry}
use kwaai_net_map.Assemble.Build.{build_snapshot}
use kwaai_net_map.Assemble.Shuffles.Blocks.{ShuffleEach}
use kwaai_net_map.Assemble.Shuffles.Whole.{build_snapshot-reorder}

-- The entries of a crawl's hash maps, in the orders in which they happen to be yielded.
pub record Entries : Type 0 where
  pub per_model : Assoc (Assoc PeerModelEntry)
  pub capability_peers : Assoc ServerInfo
  pub addrs : Assoc Observed

abbrev pub SameEntries : Entries → Entries → Type 0
SameEntries x y =
    ShuffleEach x.per_model y.per_model
    × Shuffle x.capability_peers y.capability_peers
    × Shuffle x.addrs y.addrs

-- The hash maps themselves.
abbrev pub HashMaps : Type 0
HashMaps = Quot SameEntries

Snapshot-set : IsSet (Option Snapshot)
Snapshot-set = hlevel (IsScalar-prop)

module _ (into_values : Assoc Contributor → List Contributor) (locate : List String → Location)
    (now : DateTime) (bootstrap_states : List String) (models : List Model)
    (dial_errors : Assoc String) (exclude : List String) where
  abbrev pub build : Entries → Option Snapshot
  build e =
      build_snapshot into_values locate now bootstrap_states models e.per_model e.capability_peers
        e.addrs dial_errors exclude

  build-SameEntries : (x y : Entries) → SameEntries x y → build x ≡ build y
  build-SameEntries x y s =
      build_snapshot-reorder into_values locate now bootstrap_states models dial_errors exclude
        x.per_model y.per_model x.capability_peers y.capability_peers x.addrs y.addrs s.0 s.1 s.2

  -- The snapshot of the hash maps, for one order in which the contributors' map yields its values.
  pub snapshot_of : HashMaps → Option Snapshot
  snapshot_of = Quot.lift Snapshot-set build build-SameEntries

  -- There is one function of the hash maps that `build_snapshot` computes from their entries.
  pub snapshot_of_unique :
      (g : HashMaps → Option Snapshot) → ((e : Entries) → g (Quot.mk e) ≡ build e) → g ≡ snapshot_of
  unfolding snapshot_of
  snapshot_of_unique g h = fun_ext (Quot.ind (λ q. Snapshot-set (g q) (snapshot_of q)) h)
