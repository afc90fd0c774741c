-- ===== src/Tests/Swaps.antt =====
-- A request that reads between the two swaps of `publish`.
use kwaai_net_map.Prelude.{[], ◌∷◌, refl}
use kwaai_net_map.Snapshot.{Snapshot, default_snapshot}
use kwaai_net_map.Cache.{node_entries, new, merge_crawl}
use kwaai_net_map.Cache.Swaps.{
  System, derived, has_both, Reach, start, later, merge, swap_snapshot, read_snapshot, read_nodes,
}
use kwaai_net_map.Cache.Swaps.Reads.{IsRead, reads_served}
use kwaai_net_map.Tests.Serving.{read_at}

abbrev first_served : Snapshot
first_served = merge_crawl (default_snapshot 0) (read_at 100)

-- The request reads between the two swaps of the first crawl.
abbrev between : System
between = record {
  cache = record { snapshot = first_served; nodes = [] };
  writer = derived (node_entries first_served);
  reader = has_both first_served [];
}

between_reached : Reach (new 0) (read_at 100 ∷ []) between
unfolding new
between_reached =
    later
      (later (later (later start (merge (read_at 100) refl)) (swap_snapshot refl))
        (read_snapshot refl))
      (read_nodes refl)

reads_served_example : IsRead (new 0) (read_at 100 ∷ []) first_served []
reads_served_example =
    reads_served (new 0) (read_at 100 ∷ []) between first_served [] between_reached refl
