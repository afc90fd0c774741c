-- ===== src/Routes/Gauges.antt =====
-- Gauges that agree, whatever the crawls were.
use kwaai_net_map.Prelude.{ℕ, String, Option, List, [], ◌∷◌, ◌≡◌, ap, sym, ◌∙◌, length, All}
use kwaai_net_map.Prelude.F64.{F64}
use kwaai_net_map.Snapshot.{DateTime, Snapshot}
use kwaai_net_map.Multiaddr.{IpAddr}
use kwaai_net_map.GeoIp.{GeoIp}
use kwaai_net_map.Cache.{NodeCache, FloatOps, stats, new}
use kwaai_net_map.Cache.Holding.{publish_all_consistent}
use kwaai_net_map.Pass.{Environment, run_crawler}
use kwaai_net_map.Pass.Served.{IsCrawled, run_crawler-publish_all}
use kwaai_net_map.Routes.{metrics}

counted :
    (crawls : List Snapshot) → All IsCrawled crawls → All (λ s. s.num_peers ≡ length s.peers) crawls
counted [] h = tt
counted (s ∷ crawls) h = (h.0.1, counted crawls h.1)

nodes-metrics :
    (ops : FloatOps) (seconds : DateTime → F64) (cache : NodeCache) (total_blocks : Option ℕ)
    → length cache.nodes ≡ cache.snapshot.num_peers
    → (metrics ops seconds cache total_blocks).nodes
      ≡ (metrics ops seconds cache total_blocks).peers
unfolding metrics stats
nodes-metrics ops seconds cache total_blocks h = ap ops.of_usize h

-- After any run of the crawl loop from an empty cache, the gauge of nodes is the gauge of peers:
-- it counts every peer, whether it serves blocks or not.
pub metrics-run_crawler :
    {World PeerId : Type 0} (parse_ip : String → Option IpAddr) (decimal : ℕ → String)
    (ours : String) (bootstrap_peers : List String) (passes : List (Environment World PeerId))
    (geo : GeoIp) (now : DateTime) (ops : FloatOps) (seconds : DateTime → F64)
    (total_blocks : Option ℕ)
    → (metrics ops seconds
        (run_crawler parse_ip decimal ours bootstrap_peers passes geo (new now))
        total_blocks).nodes
      ≡ (metrics ops seconds
          (run_crawler parse_ip decimal ours bootstrap_peers passes geo (new now))
          total_blocks).peers
metrics-run_crawler parse_ip decimal ours bootstrap_peers passes geo now ops seconds total_blocks =
    let (same, good) =
      run_crawler-publish_all parse_ip decimal ours bootstrap_peers passes geo (new now) in
    let consistent = publish_all_consistent now _ (counted _ good) in
    nodes-metrics ops seconds
      (run_crawler parse_ip decimal ours bootstrap_peers passes geo (new now)) total_blocks
      (ap (λ c. length c.nodes) same ∙ consistent.1 ∙ ap (λ c. c.snapshot.num_peers) (sym same))
