-- ===== src/Pass/Frozen.antt =====
-- What a panic of one pass means for what is served.
use kwaai_net_map.Prelude.{
  ℕ, String, Bool, ◌&&◌, [], Option-cases, inl, inr, true, false, ◌++◌, Option, none, some,
  map_option, is_some, List, ◌∷◌, ◌≡◌, refl, ◌∙◌, any, arith,
}
use kwaai_net_map.Snapshot.{Snapshot}
use kwaai_net_map.Bootstrap.{BootstrapSet, new, has_dialable, dial_all}
use kwaai_net_map.Multiaddr.{IpAddr}
use kwaai_net_map.Observed.{observed_addrs, excluded_peers}
use kwaai_net_map.GeoIp.{GeoIp}
use kwaai_net_map.Assemble.Ids.{reported_ids, other_ids}
use kwaai_net_map.Assemble.Total.{is_uncut, is_some-build_snapshot}
use kwaai_net_map.Cache.{NodeCache, publish}
use kwaai_net_map.Pass.{Environment, query_all, crawl_dialed, crawl_once, run_crawler}
use kwaai_net_map.Pass.Served.{stamp}
use kwaai_net_map.Prelude.F64.{F64}

map_option-none :
    (elapsed : F64) (built : Option Snapshot)
    → is_some built ≡ false
    → map_option (stamp elapsed) built ≡ none
map_option-none elapsed none h = refl
map_option-none elapsed (some s) h = cc

module _ {World PeerId : Type 0} (parse_ip : String → Option IpAddr) (decimal : ℕ → String)
    (ours : String) (env : Environment World PeerId) where
  -- The peers whose ids the pass cuts: those with a record under a model that it discovers, and those
  -- that are not excluded and have a capability record or are connected by the kad protocol.
  abbrev pub cut_ids : List String → BootstrapSet → List String
  cut_ids bootstrap_peers set =
      let (models, per_model, capable, set') = query_all parse_ip decimal ours env set in
      reported_ids per_model models
      ++ other_ids capable (observed_addrs env.listed) (excluded_peers ours bootstrap_peers)

  -- A bootstrap can be dialed, and one of those ids cannot be cut.
  abbrev pub panics : List String → Bool
  panics bootstrap_peers =
      let set = dial_all env.connects (new bootstrap_peers) in
      has_dialable set && any is_uncut (cut_ids bootstrap_peers set)

  crawl_dialed-panics :
      (bootstrap_peers : List String) (set : BootstrapSet) (geo : GeoIp)
      → any is_uncut (cut_ids bootstrap_peers set) ≡ true
      → (crawl_dialed parse_ip decimal ours env bootstrap_peers set geo).0 ≡ none
  unfolding crawl_dialed
  crawl_dialed-panics bootstrap_peers set geo uncut =
      map_option-none env.elapsed _
        (is_some-build_snapshot _ _ _ _ _ _ _ _ _ _ ∙ ground (arith, uncut))

  crawl_once-panics :
      (bootstrap_peers : List String) (geo : GeoIp)
      → panics bootstrap_peers ≡ true
      → (crawl_once parse_ip decimal ours env bootstrap_peers geo).0 ≡ none
  unfolding crawl_once
  crawl_once-panics bootstrap_peers geo h =
      let set = dial_all env.connects (new bootstrap_peers) in
      ground (arith, crawl_dialed-panics bootstrap_peers set geo)

  -- If in some pass a bootstrap can be dialed, and a peer id that cannot be cut six bytes before its
  -- end stands in a record under a model that the pass discovers, or belongs to a peer that is not
  -- excluded and has a capability record or is connected by the kad protocol, then from that pass on
  -- the cache stays as the passes before it left it, whatever later passes would find.
  pub run_crawler-frozen :
      (bootstrap_peers : List String) (before passes : List (Environment World PeerId))
      (geo : GeoIp) (cache : NodeCache)
      → panics bootstrap_peers ≡ true
      → run_crawler parse_ip decimal ours bootstrap_peers (before ++ env ∷ passes) geo cache
        ≡ run_crawler parse_ip decimal ours bootstrap_peers before geo cache
  unfolding run_crawler
  run_crawler-frozen bootstrap_peers [] passes geo cache h =
      rw (crawl_once-panics bootstrap_peers geo h, run_crawler) refl
  run_crawler-frozen bootstrap_peers (first ∷ before) passes geo cache h =
      elim (Option-cases (crawl_once parse_ip decimal ours first bootstrap_peers geo).0) [
        | inl panic ↦ rw (panic, run_crawler) refl
        | inr (snapshot, crawled) ↦
            rw (crawled, run_crawler)
              (run_crawler-frozen bootstrap_peers before passes _ (publish snapshot cache) h)
      ]
