-- ===== src/Pass/Sealed.antt =====
-- A deployment with lookups off asks neither the provider nor the resolver.
use kwaai_net_map.Prelude.{
  ℕ, String, true, false, not, Option, none, some, List, [], ◌∷◌, filter_map, map, ◌||◌, leb,
  length, ◌≡◌, refl, ap, ◌∙◌, arith, All, lookup, Bool-cases, Option-cases, inl, inr,
}
use kwaai_net_map.Prelude.Sorting.{text_set}
use kwaai_net_map.Snapshot.{Snapshot}
use kwaai_net_map.Bootstrap.{BootstrapSet, new, has_dialable, dial_all}
use kwaai_net_map.Multiaddr.{IpAddr, relay_dns_names}
use kwaai_net_map.GeoIp.{GeoIp, ApiEntry, resolve_one, resolve_names, resolve_relays, warm}
use kwaai_net_map.Observed.{Observed, observed_addrs}
use kwaai_net_map.Prelude.{Assoc}
use kwaai_net_map.Cache.{NodeCache, publish}
use kwaai_net_map.Assemble.{Model, PeerModelEntry}
use kwaai_net_map.Crawl.{discover_models}
use kwaai_net_map.Pass.{
  Environment, flat_addrs, collect_models, warmed, crawl_dialed, crawl_once, run_crawler,
}

module _ (parse_ip : String → Option IpAddr) (ask : String → Option (List (IpAddr × String)))
    (geo : GeoIp) (off : geo.enabled ≡ false) where
  -- With lookups off, the names that are known already.
  abbrev known_names : List String → List String
  known_names names = filter_map (λ name. lookup name geo.dns) names

  resolve_one_off : (name : String) → resolve_one parse_ip ask name geo ≡ (lookup name geo.dns, geo)
  unfolding resolve_one
  resolve_one_off name = elim (Option-cases (lookup name geo.dns)) [
    | inl unknown ↦
        let test : not geo.enabled ≡ true = ap not off in rw (unknown, resolve_one) (rw test refl)
    | inr (ip, known) ↦ rw (known, resolve_one) refl
  ]

  -- The rest of the loop after one round.
  abbrev after_one : List String → Option String × GeoIp → List String × GeoIp
  after_one names (found, geo') =
      let (out, geo'') = resolve_names parse_ip ask names geo' in
      (elim found [ none ↦ out | some ip ↦ ip ∷ out ], geo'')

  resolve_names_off :
      (names : List String) → resolve_names parse_ip ask names geo ≡ (known_names names, geo)
  unfolding resolve_names
  resolve_names_off [] = refl
  resolve_names_off (name ∷ names) =
      ap (after_one names) (resolve_one_off name)
      ∙ added (lookup name geo.dns) (resolve_names_off names)
    where
      added :
          {out : List String × GeoIp} (o : Option String)
          → out ≡ (known_names names, geo)
          → ◌≡◌ {A = List String × GeoIp}
              (elim o [ none ↦ out.0 | some ip ↦ ip ∷ out.0 ], out.1)
              (elim o [ none ↦ known_names names | some ip ↦ ip ∷ known_names names ], geo)
      added none e = e
      added (some ip) e = ap (λ (r : List String × GeoIp). (ip ∷ r.0, r.1)) e

  resolve_relays_off :
      (names : List String)
      → resolve_relays parse_ip ask names geo ≡ (known_names (text_set names), geo)
  unfolding resolve_relays
  resolve_relays_off names = resolve_names_off (text_set names)

warm_off :
    (fetch : List String → Option (List ApiEntry)) (ips : List String) (geo : GeoIp)
    → geo.enabled ≡ false
    → warm fetch ips geo ≡ geo
unfolding warm
warm_off fetch ips geo off =
    let test : (not geo.enabled || leb 50000 (length geo.cache)) ≡ true = ground (arith, off) in
    rw test refl

module _ {World PeerId : Type 0} (parse_ip : String → Option IpAddr) (decimal : ℕ → String)
    (ours : String) where
  warmed_off :
      (env : Environment World PeerId) (addrs : Assoc Observed) (geo : GeoIp)
      → geo.enabled ≡ false
      → warmed parse_ip decimal ours env addrs geo ≡ geo
  unfolding warmed
  warmed_off env addrs geo off =
      rw (resolve_relays_off parse_ip env.lookup_host geo off (relay_dns_names (flat_addrs addrs)))
        (warm_off env.fetch _ geo off)

  -- The pass with another provider and another resolver.
  module _ (fetch : Environment World PeerId → List String → Option (List ApiEntry))
      (lookup_host : Environment World PeerId → String → Option (List (IpAddr × String))) where
    abbrev pub reroute : Environment World PeerId → Environment World PeerId
    reroute env = record env { fetch = fetch env; lookup_host = lookup_host env }

    pub collect_models_same :
        (env : Environment World PeerId) (models : List Model)
        (per_model : Assoc (Assoc PeerModelEntry)) (set : BootstrapSet) (w : World)
        → collect_models parse_ip decimal ours (reroute env) models per_model set w
          ≡ collect_models parse_ip decimal ours env models per_model set w
    unfolding collect_models
    collect_models_same env [] per_model set w = refl
    collect_models_same env (model ∷ models) per_model set w = collect_models_same env models _ _ _

    crawl_dialed_off :
        (env : Environment World PeerId) (bootstrap_peers : List String) (set : BootstrapSet)
        (geo : GeoIp)
        → geo.enabled ≡ false
        → (crawl_dialed parse_ip decimal ours (reroute env) bootstrap_peers set geo
            ≡ crawl_dialed parse_ip decimal ours env bootstrap_peers set geo)
          × ((crawl_dialed parse_ip decimal ours env bootstrap_peers set geo).1 ≡ geo)
    unfolding crawl_dialed
    crawl_dialed_off env bootstrap_peers set geo off =
        let here = warmed_off env (observed_addrs env.listed) geo off in
        let there = warmed_off (reroute env) (observed_addrs env.listed) geo off in
        let (models, set', w) = discover_models env.net env.msgpack set env.start in
        rw (here, there, collect_models_same env models [] set' w) (refl, refl)

    crawl_once_off :
        (env : Environment World PeerId) (bootstrap_peers : List String) (geo : GeoIp)
        → geo.enabled ≡ false
        → (crawl_once parse_ip decimal ours (reroute env) bootstrap_peers geo
            ≡ crawl_once parse_ip decimal ours env bootstrap_peers geo)
          × ((crawl_once parse_ip decimal ours env bootstrap_peers geo).1 ≡ geo)
    unfolding crawl_once
    crawl_once_off env bootstrap_peers geo off =
        let set = dial_all env.connects (new bootstrap_peers) in
        elim (Bool-cases (has_dialable set)) [
          | inl dialable ↦
              rw (dialable, crawl_once) (crawl_dialed_off env bootstrap_peers set geo off)
          | inr dead ↦ rw (dead, crawl_once) (refl, refl)
        ]

    -- With lookups off, no pass changes the caches of locations and names, and the crawl loop serves
    -- the same whatever the provider and the resolver would answer in any of its passes.
    pub run_crawler-reroute :
        (bootstrap_peers : List String) (passes : List (Environment World PeerId)) (geo : GeoIp)
        (cache : NodeCache)
        → geo.enabled ≡ false
        → All (λ env. (crawl_once parse_ip decimal ours env bootstrap_peers geo).1 ≡ geo) passes
          × (run_crawler parse_ip decimal ours bootstrap_peers (map reroute passes) geo cache
              ≡ run_crawler parse_ip decimal ours bootstrap_peers passes geo cache)
    unfolding run_crawler
    run_crawler-reroute bootstrap_peers [] geo cache off = (tt, refl)
    run_crawler-reroute bootstrap_peers (env ∷ passes) geo cache off =
        let (same_pass, kept) = crawl_once_off env bootstrap_peers geo off in
        (
          (kept, (run_crawler-reroute bootstrap_peers passes geo cache off).0),
          elim (Option-cases (crawl_once parse_ip decimal ours env bootstrap_peers geo).0) [
            | inl panic ↦ rw (same_pass, panic, run_crawler) refl
            | inr (s, crawled) ↦
                let geo' = (crawl_once parse_ip decimal ours env bootstrap_peers geo).1 in
                let rest =
                  run_crawler-reroute bootstrap_peers passes geo' (publish s cache)
                    (ap (λ g. g.enabled) kept ∙ off) in
                rw (same_pass, crawled, run_crawler)
                  (ap
                      (λ (r : Option Snapshot × GeoIp).
                        run_crawler parse_ip decimal ours bootstrap_peers (map reroute passes) r.1
                          (publish s cache))
                      same_pass
                    ∙ rest.1)
          ],
        )
