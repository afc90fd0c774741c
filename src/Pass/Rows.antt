-- ===== src/Pass/Rows.antt =====
-- The rows that are served, in order.
use kwaai_net_map.Prelude.{
  ℕ, Option, ltb, ◌||◌, eqb, String, List, [], ◌∷◌, map, All, Bool-cases, inl, inr,
}
use kwaai_net_map.Prelude.Sorting.{before, IsSorted}
use kwaai_net_map.Snapshot.{DateTime, PeerRow, Snapshot}
use kwaai_net_map.Multiaddr.{IpAddr}
use kwaai_net_map.GeoIp.{GeoIp}
use kwaai_net_map.Cache.{NodeCache, merge_crawl, publish, new}
use kwaai_net_map.Cache.Holding.{publish_all}
use kwaai_net_map.Pass.{Environment, run_crawler}
use kwaai_net_map.Pass.Served.{IsCrawled, run_crawler-publish_all}

abbrev pub Ascends : List PeerRow → Type 0
Ascends peers = IsSorted before (map (λ r. r.peer_id) peers)

merge_crawl-Ascends :
    (served fresh : Snapshot)
    → Ascends served.peers
    → Ascends fresh.peers
    → Ascends (merge_crawl served fresh).peers
unfolding merge_crawl
merge_crawl-Ascends served fresh h k =
    elim (Bool-cases (ltb 0 fresh.num_peers || eqb served.num_peers 0)) [
      | inl replaced ↦ rw replaced k
      | inr kept ↦ rw kept h
    ]

publish_all-Ascends :
    (crawls : List Snapshot) (cache : NodeCache)
    → All IsCrawled crawls
    → Ascends cache.snapshot.peers
    → Ascends (publish_all cache crawls).snapshot.peers
unfolding publish_all publish
publish_all-Ascends [] cache good h = h
publish_all-Ascends (s ∷ crawls) cache good h =
    publish_all-Ascends crawls (publish s cache) good.1
      (merge_crawl-Ascends cache.snapshot s h good.0.2)

-- After any run of the crawl loop from an empty cache, the served rows are in strictly ascending
-- order of their peer ids: no peer has two.
pub run_crawler-Ascends :
    {World PeerId : Type 0} (parse_ip : String → Option IpAddr) (decimal : ℕ → String)
    (ours : String) (bootstrap_peers : List String) (passes : List (Environment World PeerId))
    (geo : GeoIp) (now : DateTime)
    → Ascends
        (run_crawler parse_ip decimal ours bootstrap_peers passes geo (new now)).snapshot.peers
unfolding new
run_crawler-Ascends parse_ip decimal ours bootstrap_peers passes geo now =
    let (same, good) =
      run_crawler-publish_all parse_ip decimal ours bootstrap_peers passes geo (new now) in
    rw same (publish_all-Ascends _ (new now) good tt)
