-- ===== src/Tests/Sealed.antt =====
-- Two passes with lookups off, and a provider that would answer.
use kwaai_net_map.Prelude.{ℕ, String, Bool, Option, some, List, [], ◌∷◌, map, ◌≡◌, refl, All}
use kwaai_net_map.Multiaddr.{IpAddr, v4}
use kwaai_net_map.GeoIp.{GeoIp, ApiEntry}
use kwaai_net_map.Cache.{new}
use kwaai_net_map.Pass.{Environment, crawl_once, run_crawler}
use kwaai_net_map.Pass.Sealed.{reroute, run_crawler-reroute}
use kwaai_net_map.Tests.Crawls.{one_digit}
use kwaai_net_map.Tests.Passes.{environment, no_ip, configured}

abbrev sealed : GeoIp
sealed = record { cache = []; dns = []; enabled = Bool.false; statics = [] }

abbrev answers : Environment ℕ String → List String → Option (List ApiEntry)
answers env ips = some []

abbrev resolves : Environment ℕ String → String → Option (List (IpAddr × String))
resolves env name = some ((v4 9 9 9 9, "9.9.9.9") ∷ [])

abbrev passes : List (Environment ℕ String)
passes = environment ∷ environment ∷ []

run_crawler-reroute_example :
    All (λ env. (crawl_once no_ip one_digit "QmUs" env configured sealed).1 ≡ sealed) passes
    × (run_crawler no_ip one_digit "QmUs" configured
          (map (reroute no_ip one_digit "QmUs" answers resolves) passes)
          sealed
          (new 0)
        ≡ run_crawler no_ip one_digit "QmUs" configured passes sealed (new 0))
run_crawler-reroute_example =
    run_crawler-reroute no_ip one_digit "QmUs" answers resolves configured passes sealed (new 0)
      refl
