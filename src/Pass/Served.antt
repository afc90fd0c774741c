-- ===== src/Pass/Served.antt =====
-- What the crawl loop serves.
use kwaai_net_map.Prelude.{
  String, Option, none, some, map_option, List, [], ◌∷◌, ◌≡◌, refl, ℕ, length, All, arith, Assoc,
  Bool-cases, Option-cases, inl, inr,
}
use kwaai_net_map.Prelude.F64.{F64}
use kwaai_net_map.Snapshot.{ServerInfo, Location, DateTime, Contributor, Snapshot}
use kwaai_net_map.Bootstrap.{BootstrapSet, new, has_dialable, dial_all}
use kwaai_net_map.Multiaddr.{IpAddr}
use kwaai_net_map.GeoIp.{GeoIp}
use kwaai_net_map.Observed.{Observed}
use kwaai_net_map.Assemble.{Model, PeerModelEntry}
use kwaai_net_map.Assemble.Build.{build_snapshot}
use kwaai_net_map.Assemble.Peers.{has_row_iff, build_snapshot-IsFresh, peers-IsSorted}
use kwaai_net_map.Prelude.{map}
use kwaai_net_map.Prelude.Sorting.{before, IsSorted}
use kwaai_net_map.Cache.{NodeCache, publish}
use kwaai_net_map.Cache.Holding.{publish_all, IsFresh}
use kwaai_net_map.Pass.{Environment, crawl_interval, crawl_dialed, crawl_once, run_crawler}

-- What a finished pass guarantees of its snapshot.
abbrev pub IsCrawled : Snapshot → Type 0
IsCrawled s =
    IsFresh s × (s.num_peers ≡ length s.peers) × IsSorted before (map (λ r. r.peer_id) s.peers)

build_snapshot-IsCrawled :
    (into_values : Assoc Contributor → List Contributor) (place : List String → Location)
    (now : DateTime) (states : List String) (models : List Model)
    (per_model : Assoc (Assoc PeerModelEntry)) (capable : Assoc ServerInfo) (addrs : Assoc Observed)
    (dial_errors : Assoc String) (exclude : List String) (s : Snapshot)
    → build_snapshot into_values place now states models per_model capable addrs dial_errors exclude
      ≡ some s
    → IsCrawled s
build_snapshot-IsCrawled into_values place now states models per_model capable addrs dial_errors
      exclude s built =
    (
      build_snapshot-IsFresh into_values place now states models per_model capable addrs dial_errors
          exclude s built,
      (has_row_iff into_values place now states models per_model capable addrs dial_errors exclude s
          built "").1,
      peers-IsSorted into_values place now states models per_model capable addrs dial_errors exclude
          s built,
    )

-- The time stamps of a pass.
abbrev pub stamp : F64 → Snapshot → Snapshot
stamp elapsed s = record s { update_period = crawl_interval; update_duration = elapsed }

stamp-IsCrawled :
    (elapsed : F64) (built : Option Snapshot) (s : Snapshot)
    → ((t : Snapshot) → built ≡ some t → IsCrawled t)
    → map_option (stamp elapsed) built ≡ some s
    → IsCrawled s
stamp-IsCrawled elapsed none s h e = absurd (ground arith)
stamp-IsCrawled elapsed (some t) s h e =
    let (fresh, counted, ascending) = h t refl in
    let same : s.peers ≡ t.peers = ground arith in
    (
      record {
        no_stale = ground (arith, fresh.no_stale);
        not_held = ground (arith, fresh.not_held);
      },
      ground (arith, counted),
      rw same ascending,
    )

module _ {World PeerId : Type 0} (parse_ip : String → Option IpAddr) (decimal : ℕ → String)
    (ours : String) where
  crawl_dialed-IsCrawled :
      (env : Environment World PeerId) (bootstrap_peers : List String) (set : BootstrapSet)
      (geo : GeoIp) (s : Snapshot)
      → (crawl_dialed parse_ip decimal ours env bootstrap_peers set geo).0 ≡ some s
      → IsCrawled s
  unfolding crawl_dialed
  crawl_dialed-IsCrawled env bootstrap_peers set geo s e =
      stamp-IsCrawled env.elapsed _ s
        (λ t built. build_snapshot-IsCrawled _ _ _ _ _ _ _ _ _ _ t built) e

  pub crawl_once-IsCrawled :
      (env : Environment World PeerId) (bootstrap_peers : List String) (geo : GeoIp) (s : Snapshot)
      → (crawl_once parse_ip decimal ours env bootstrap_peers geo).0 ≡ some s
      → IsCrawled s
  unfolding crawl_once
  crawl_once-IsCrawled env bootstrap_peers geo s e =
      elim (Bool-cases (has_dialable (dial_all env.connects (new bootstrap_peers)))) [
        | inl dialable ↦
            crawl_dialed-IsCrawled env bootstrap_peers (dial_all env.connects (new bootstrap_peers))
              geo s (ground arith)
        | inr none_dialed ↦
            let no_rows : s.peers ≡ [] = ground arith in
            (
              record { no_stale = ground arith; not_held = ground arith },
              ground arith,
              rw no_rows tt,
            )
      ]

  -- The snapshots of the passes, up to the first that panics.
  pub snapshots_of : List String → List (Environment World PeerId) → GeoIp → List Snapshot
  snapshots_of bootstrap_peers [] geo = []
  snapshots_of bootstrap_peers (env ∷ passes) geo =
      let (crawled, geo') = crawl_once parse_ip decimal ours env bootstrap_peers geo in
      elim crawled [ none ↦ [] | some s ↦ s ∷ snapshots_of bootstrap_peers passes geo' ]

  snapshots_of_panic :
      (bootstrap_peers : List String) (env : Environment World PeerId)
      (passes : List (Environment World PeerId)) (geo : GeoIp)
      → (crawl_once parse_ip decimal ours env bootstrap_peers geo).0 ≡ none
      → snapshots_of bootstrap_peers (env ∷ passes) geo ≡ []
  unfolding snapshots_of
  snapshots_of_panic bootstrap_peers env passes geo panic = rw (panic, snapshots_of) refl

  snapshots_of_cons :
      (bootstrap_peers : List String) (env : Environment World PeerId)
      (passes : List (Environment World PeerId)) (geo : GeoIp) (s : Snapshot)
      → (crawl_once parse_ip decimal ours env bootstrap_peers geo).0 ≡ some s
      → snapshots_of bootstrap_peers (env ∷ passes) geo
        ≡ s
          ∷ snapshots_of bootstrap_peers passes
              (crawl_once parse_ip decimal ours env bootstrap_peers geo).1
  unfolding snapshots_of
  snapshots_of_cons bootstrap_peers env passes geo s crawled = rw (crawled, snapshots_of) refl

  -- Whatever the passes meet, the crawl loop serves what publishing the snapshots of the passes in
  -- turn serves, up to the first pass that panics; each of them is fresh, counts its peers right and
  -- lists them in strictly ascending order of their ids.
  pub run_crawler-publish_all :
      (bootstrap_peers : List String) (passes : List (Environment World PeerId)) (geo : GeoIp)
      (cache : NodeCache)
      → (run_crawler parse_ip decimal ours bootstrap_peers passes geo cache
          ≡ publish_all cache (snapshots_of bootstrap_peers passes geo))
        × All IsCrawled (snapshots_of bootstrap_peers passes geo)
  unfolding run_crawler publish_all
  run_crawler-publish_all bootstrap_peers [] geo cache = unfold snapshots_of in (refl, tt)
  run_crawler-publish_all bootstrap_peers (env ∷ passes) geo cache =
      elim (Option-cases (crawl_once parse_ip decimal ours env bootstrap_peers geo).0) [
        | inl panic ↦
            rw (snapshots_of_panic bootstrap_peers env passes geo panic)
              (rw (panic, run_crawler) refl, tt)
        | inr (s, crawled) ↦
            let geo' = (crawl_once parse_ip decimal ours env bootstrap_peers geo).1 in
            let (same, good) =
              run_crawler-publish_all bootstrap_peers passes geo' (publish s cache) in
            rw (snapshots_of_cons bootstrap_peers env passes geo s crawled) (
              rw (crawled, run_crawler) same,
              (crawl_once-IsCrawled env bootstrap_peers geo s crawled, good),
            )
      ]
