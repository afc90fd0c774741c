-- ===== src/Cache/Swaps.antt =====
-- The two locks of `NodeCache`, map-server/src/cache.rs: the steps of `publish` interleaved with
-- those of a reader that takes the snapshot and then the nodes, as `stats` does.
pub mod Reads
use kwaai_net_map.Prelude.{
  ℕ, suc, ◌+◌, ◌≤◌, List, [], ◌∷◌, ◌++◌, ◌≡◌, refl, ap, sym, ◌∙◌, length, length-append, arith,
}
use kwaai_net_map.Snapshot.{Snapshot}
use kwaai_net_map.Cache.{NodeCache, NodeEntry, merge_crawl, node_entries, publish}
use kwaai_net_map.Cache.Holding.{publish_all}

-- Where the crawler's task stands in `publish`: outside, with the merged snapshot, or with the nodes
-- that it derived, after the snapshot's swap.
pub data Writer : Type 0 where
  outside : Writer
  merged : (fresh served : Snapshot) → Writer
  derived : List NodeEntry → Writer

-- Where a request stands: before it reads, with the snapshot, or with the nodes as well.
pub data Reader : Type 0 where
  waiting : Reader
  has_snapshot : Snapshot → Reader
  has_both : Snapshot → List NodeEntry → Reader

pub record System : Type 0 where
  pub cache : NodeCache
  pub writer : Writer
  pub reader : Reader

-- One lock taken by one of the two; the list holds the crawl that the step brings to the readers.
pub data Step (s : System) : List Snapshot → System → Type 0 where
  merge :
      (fresh : Snapshot)
      → s.writer ≡ outside
      → Step s [] (record s { writer = merged fresh (merge_crawl s.cache.snapshot fresh) })
  swap_snapshot :
      {fresh served : Snapshot}
      → s.writer ≡ merged fresh served
      → Step s (fresh ∷ []) (record s {
        cache = record s.cache { snapshot = served };
        writer = derived (node_entries served);
      })
  swap_nodes :
      {entries : List NodeEntry}
      → s.writer ≡ derived entries
      → Step s [] (record s { cache = record s.cache { nodes = entries }; writer = outside })
  read_snapshot :
      s.reader ≡ waiting → Step s [] (record s { reader = has_snapshot s.cache.snapshot })
  read_nodes :
      {read : Snapshot}
      → s.reader ≡ has_snapshot read
      → Step s [] (record s { reader = has_both read s.cache.nodes })
  respond :
      {read : Snapshot} {entries : List NodeEntry}
      → s.reader ≡ has_both read entries
      → Step s [] (record s { reader = waiting })

-- What the steps lead to, with the crawls whose snapshots have been swapped in, in order.
pub data Reach (c : NodeCache) : List Snapshot → System → Type 0 where
  start : Reach c [] (record { cache = c; writer = outside; reader = waiting })
  later :
      {crawls more : List Snapshot} {s t : System}
      → Reach c crawls s
      → Step s more t
      → Reach c (crawls ++ more) t
