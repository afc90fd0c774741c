-- ===== src/Pass/Asked.antt =====
-- What is served depends on the provider's answers about addresses only for which `is_public` holds.
use kwaai_net_map.Prelude.{
  ℕ, String, not, ◌||◌, Option, List, [], ◌∷◌, map, ◌≡◌, refl, ap, sym, ◌∙◌, All, All-append, Assoc,
  leb, length, Bool-cases, Option-cases, inl, inr,
}
use mathlib.Core.Path.{subst}
use kwaai_net_map.Prelude.Sorting.{text_set}
use kwaai_net_map.Snapshot.{Snapshot}
use kwaai_net_map.Bootstrap.{BootstrapSet, new, has_dialable, dial_all}
use kwaai_net_map.Multiaddr.{IpAddr, relay_dns_names}
use kwaai_net_map.Multiaddr.Public.{IsPublicText, public_ips-IsPublicText}
use kwaai_net_map.GeoIp.{GeoIp, ApiEntry, resolve_relays, warm}
use kwaai_net_map.GeoIp.Asked.{IsPublicDns, HasTexts, warm_same, resolve_names_public}
use kwaai_net_map.Observed.{Observed, observed_addrs}
use kwaai_net_map.Crawl.{discover_models}
use kwaai_net_map.Cache.{NodeCache, publish}
use kwaai_net_map.Pass.{Environment, flat_addrs, warmed, crawl_dialed, crawl_once, run_crawler}
use kwaai_net_map.Pass.Sealed.{reroute, collect_models_same}

dns-warm :
    (fetch : List String → Option (List ApiEntry)) (ips : List String) (geo : GeoIp)
    → (warm fetch ips geo).dns ≡ geo.dns
unfolding warm
dns-warm fetch ips geo = elim (Bool-cases (not geo.enabled || leb 50000 (length geo.cache))) [
  | inl skipped ↦ rw skipped refl
  | inr asked ↦ rw asked refl
]

module _ {World PeerId : Type 0} (parse_ip : String → Option IpAddr) (decimal : ℕ → String)
    (ours : String) (other : Environment World PeerId → List String → Option (List ApiEntry)) where
  -- The pass with another provider.
  abbrev pub reask : Environment World PeerId → Environment World PeerId
  reask = reroute parse_ip decimal ours other (λ env. env.lookup_host)

  -- The other provider answers the same where `is_public` holds of all the addresses, and the
  -- resolver's texts are those of its addresses.
  pub record IsAlike (env : Environment World PeerId) : Type 0 where
    pub agree :
        (batch : List String)
        → All (IsPublicText parse_ip) batch
        → other env batch ≡ env.fetch batch
    pub texts : HasTexts parse_ip env.lookup_host

  warmed_public :
      (env : Environment World PeerId) (addrs : Assoc Observed) (geo : GeoIp)
      → IsAlike env
      → IsPublicDns parse_ip geo.dns
      → (warmed parse_ip decimal ours (reask env) addrs geo
          ≡ warmed parse_ip decimal ours env addrs geo)
        × IsPublicDns parse_ip (warmed parse_ip decimal ours env addrs geo).dns
  unfolding warmed resolve_relays
  warmed_public env addrs geo alike h =
      let flat = flat_addrs addrs in
      let names = relay_dns_names flat in
      let (relays, dns) =
        resolve_names_public parse_ip env.lookup_host alike.texts (text_set names) geo h in
      let ips =
        All-append (IsPublicText parse_ip) _ _ (public_ips-IsPublicText parse_ip flat) relays in
      (
        warm_same (IsPublicText parse_ip) env.fetch (other env) alike.agree _ _ ips,
        subst (IsPublicDns parse_ip) (sym (dns-warm env.fetch _ _)) dns,
      )

  crawl_dialed_public :
      (env : Environment World PeerId) (bootstrap_peers : List String) (set : BootstrapSet)
      (geo : GeoIp)
      → IsAlike env
      → IsPublicDns parse_ip geo.dns
      → (crawl_dialed parse_ip decimal ours (reask env) bootstrap_peers set geo
          ≡ crawl_dialed parse_ip decimal ours env bootstrap_peers set geo)
        × IsPublicDns parse_ip
            (crawl_dialed parse_ip decimal ours env bootstrap_peers set geo).1.dns
  unfolding crawl_dialed
  crawl_dialed_public env bootstrap_peers set geo alike h =
      let (same, dns) = warmed_public env (observed_addrs env.listed) geo alike h in
      let (models, set', w) = discover_models env.net env.msgpack set env.start in
      (
        rw
            (
              same,
              collect_models_same parse_ip decimal ours other (λ e. e.lookup_host) env models []
                  set' w,
            )
            refl,
        dns,
      )

  crawl_once_public :
      (env : Environment World PeerId) (bootstrap_peers : List String) (geo : GeoIp)
      → IsAlike env
      → IsPublicDns parse_ip geo.dns
      → (crawl_once parse_ip decimal ours (reask env) bootstrap_peers geo
          ≡ crawl_once parse_ip decimal ours env bootstrap_peers geo)
        × IsPublicDns parse_ip (crawl_once parse_ip decimal ours env bootstrap_peers geo).1.dns
  unfolding crawl_once
  crawl_once_public env bootstrap_peers geo alike h =
      let set = dial_all env.connects (new bootstrap_peers) in
      elim (Bool-cases (has_dialable set)) [
        | inl dialable ↦
            rw (dialable, crawl_once) (crawl_dialed_public env bootstrap_peers set geo alike h)
        | inr dead ↦ rw (dead, crawl_once) (refl, h)
      ]

  -- If the resolver gives each address with its text, and the names that were resolved before have
  -- addresses for which `is_public` holds, then the crawl loop serves the same with any other provider
  -- that answers the same to the requests in which `is_public` holds of every address: no answer about
  -- an address that `is_public` refuses plays a part, as the private and loopback ones. Answers about
  -- the reserved addresses that `is_public` lets through, fe80::/10 and 240.0.0.0/4 among them, may.
  pub run_crawler-reask :
      (bootstrap_peers : List String) (passes : List (Environment World PeerId)) (geo : GeoIp)
      (cache : NodeCache)
      → All IsAlike passes
      → IsPublicDns parse_ip geo.dns
      → run_crawler parse_ip decimal ours bootstrap_peers (map reask passes) geo cache
        ≡ run_crawler parse_ip decimal ours bootstrap_peers passes geo cache
  unfolding run_crawler
  run_crawler-reask bootstrap_peers [] geo cache alike h = refl
  run_crawler-reask bootstrap_peers (env ∷ passes) geo cache alike h =
      let (same_pass, dns) = crawl_once_public env bootstrap_peers geo alike.0 h in
      elim (Option-cases (crawl_once parse_ip decimal ours env bootstrap_peers geo).0) [
        | inl panic ↦ rw (same_pass, panic, run_crawler) refl
        | inr (s, crawled) ↦
            rw (same_pass, crawled, run_crawler)
              (ap
                  (λ (r : Option Snapshot × GeoIp).
                    run_crawler parse_ip decimal ours bootstrap_peers (map reask passes) r.1
                      (publish s cache))
                  same_pass
                ∙ run_crawler-reask bootstrap_peers passes _ (publish s cache) alike.1 dns)
      ]
