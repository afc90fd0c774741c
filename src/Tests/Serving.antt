-- ===== src/Tests/Serving.antt =====
-- What the cache serves after small crawls.
use kwaai_net_map.Prelude.{
  ◌≤◌, ◌||◌, ◌&&◌, not, any, eqb, ltb, All, ℕ, ◌+◌, String, true, false, none, List, [], ◌∷◌, ◌++◌,
  ◌≡◌, refl, length, arith, count_below,
}
use kwaai_net_map.Prelude.Int.{pos}
use kwaai_net_map.Snapshot.{
  default_server_info, default_peer_ip_info, ServerRow, ModelReport, PeerRow, Snapshot,
  default_snapshot,
}
use kwaai_net_map.Cache.{NodeCache, node_entries, new, covered_count, total_of}
use kwaai_net_map.Cache.Holding.{publish_all, held_view, publish_all_holds, publish_all_consistent}
use kwaai_net_map.Cache.Recovery.{IsHeld, publish_all-recovers}
use kwaai_net_map.Cache.Total.{size, has_size, total_of_lem}
use kwaai_net_map.Cache.Coverage.{is_served, covered_count-eq-count_below}

abbrev pub peer : PeerRow
peer = record {
  peer_id = "QmA";
  short_peer_id = "QmA";
  public_name = none;
  version = none;
  state = "online";
  shard_loading = false;
  model = none;
  span = none;
  throughput = 0;
  using_relay = none;
  vpk = none;
  trust_attestations = 3;
  peer_ip_info = default_peer_ip_info;
  kad = true;
  announced = true;
}

abbrev pub read_at : ℕ → Snapshot
read_at now = record (default_snapshot now) { num_peers = 1; peers = peer ∷ [] }

abbrev empty_at : ℕ → Snapshot
empty_at now = record (default_snapshot now) { bootstrap_states = "unreachable" ∷ [] }

abbrev serving : NodeCache
serving = record { snapshot = read_at 100; nodes = node_entries (read_at 100) }

publish_all_holds_example :
    (publish_all serving ((empty_at 200 ∷ []) ++ empty_at 300 ∷ [])).snapshot
    ≡ held_view (read_at 100) (length (empty_at 200 ∷ []) + 1) (empty_at 300)
publish_all_holds_example =
    publish_all_holds (read_at 100) (omega arith) (empty_at 200 ∷ []) (empty_at 300) serving
      (record { no_stale = refl; not_held = refl }) refl (refl, tt) refl

abbrev crawls : List Snapshot
crawls = read_at 100 ∷ empty_at 200 ∷ []

consistent_test :
    ((publish_all (new 0) crawls).nodes ≡ node_entries (publish_all (new 0) crawls).snapshot)
    × (length (publish_all (new 0) crawls).nodes ≡ (publish_all (new 0) crawls).snapshot.num_peers)
consistent_test = publish_all_consistent 0 crawls (refl, (refl, tt))

abbrev row : String → ℕ → ℕ → ServerRow
row state start end = record {
  peer_id = "QmA";
  short_peer_id = "QmA";
  show_public_name = false;
  state = state;
  peer_ip_info = default_peer_ip_info;
  span = record {
    peer_id = "QmA";
    start = pos start;
    end = pos end;
    server_info = default_server_info;
  };
}

abbrev report : List ServerRow → ModelReport
report rows = record {
  name = "m";
  short_name = "m";
  dht_prefix = "m";
  repository = "";
  num_blocks = pos 8;
  state = "broken";
  server_rows = rows;
}

abbrev reports : List ModelReport
reports = report (row "online" 0 3 ∷ row "joining" 4 8 ∷ []) ∷ report (row "online" 2 5 ∷ []) ∷ []

covered_count_test : covered_count 8 reports ≡ 5
unfolding covered_count
covered_count_test = refl

covered_count-eq-count_below_example : covered_count 8 reports ≡ count_below 8 (is_served reports)
covered_count-eq-count_below_example = covered_count-eq-count_below 8 reports

total_test :
    All (λ m. size m ≤ total_of none reports) reports
    × ((has_size (total_of none reports) reports
          || (eqb (total_of none reports) 80 && not (any (λ m. ltb 0 (size m)) reports)))
        ≡ true)
total_test = total_of_lem reports

publish_all-recovers_example :
    IsHeld (read_at 300) 1 (publish_all (new 0) (crawls ++ read_at 300 ∷ empty_at 400 ∷ []))
publish_all-recovers_example =
    publish_all-recovers (new 0) crawls (read_at 300) (empty_at 400 ∷ [])
      (record { no_stale = refl; not_held = refl }) (omega arith) (refl, tt)
