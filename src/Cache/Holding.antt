-- ===== src/Cache/Holding.antt =====
-- What the cache serves after a run of crawls.
use kwaai_net_map.Prelude.{
  ℕ, suc, ◌+◌, ◌%◌, ◌<◌, none, some, List, [], ◌∷◌, ◌++◌, ◌≡◌, refl, ap, sym, ◌∙◌, length,
  length-map, All, arith,
}
use kwaai_net_map.Snapshot.{Snapshot, DateTime}
use kwaai_net_map.Cache.{NodeCache, merge_crawl, node_entries, publish, new}

-- Crawls published one after the other, the first of the list first.
unfoldable pub publish_all : NodeCache → List Snapshot → NodeCache
publish_all cache [] = cache
publish_all cache (fresh ∷ crawls) = publish_all (publish fresh cache) crawls

-- What `build_snapshot` guarantees of a crawl's result.
pub record IsFresh (s : Snapshot) : Type 0 where
  pub no_stale : s.stale_since ≡ none
  pub not_held : s.crawls_held ≡ 0

-- `base` as it is served after `held` empty crawls, the last of them `crawl`.
abbrev pub held_view : Snapshot → ℕ → Snapshot → Snapshot
held_view base held crawl = record base {
  bootstrap_states = crawl.bootstrap_states;
  update_period = crawl.update_period;
  update_duration = crawl.update_duration;
  stale_since = some base.last_updated;
  crawls_held = held % 4294967296;
}

hold_again :
    (base crawl last : Snapshot) (held : ℕ)
    → 0 < base.num_peers
    → last.num_peers ≡ 0
    → merge_crawl (held_view base held crawl) last ≡ held_view base (held + 1) last
unfolding merge_crawl
hold_again base crawl last held h e = ground arith

hold_first :
    (base last : Snapshot)
    → 0 < base.num_peers
    → IsFresh base
    → last.num_peers ≡ 0
    → merge_crawl base last ≡ held_view base 1 last
unfolding merge_crawl
hold_first base last h f e = ground (arith, f.no_stale, f.not_held)

one_more : (n : ℕ) → 1 + n + 1 ≡ suc n + 1
one_more n = omega arith

module _ (base : Snapshot) (h : 0 < base.num_peers) where
  publish_all-held :
      (empties : List Snapshot) (last crawl : Snapshot) (held : ℕ) (cache : NodeCache)
      → All (λ s. s.num_peers ≡ 0) empties
      → last.num_peers ≡ 0
      → cache.snapshot ≡ held_view base held crawl
      → (publish_all cache (empties ++ last ∷ [])).snapshot
        ≡ held_view base (held + length empties + 1) last
  unfolding publish_all publish
  publish_all-held [] last crawl held cache none_read e at_base =
      ap (λ s. merge_crawl s last) at_base
      ∙ hold_again base crawl last held h e
      ∙ ap (λ n. held_view base n last) (omega arith)
  publish_all-held (s ∷ empties) last crawl held cache none_read e at_base =
      publish_all-held empties last s (held + 1) (publish s cache) none_read.1 e
        (ap (λ t. merge_crawl t s) at_base ∙ hold_again base crawl s held h none_read.0)
      ∙ ap (λ n. held_view base n last) (omega arith)

  -- If a crawl that read peers is served, and then any number of crawls read none, then the peer
  -- data, the counts and `last_updated` stay those of that crawl, `stale_since` is the time it was
  -- read, `crawls_held` counts the empty crawls modulo 2 ^ 32, and the bootstrap states and timings
  -- are those of the last crawl.
  pub publish_all_holds :
      (empties : List Snapshot) (last : Snapshot) (cache : NodeCache)
      → IsFresh base
      → cache.snapshot ≡ base
      → All (λ s. s.num_peers ≡ 0) empties
      → last.num_peers ≡ 0
      → (publish_all cache (empties ++ last ∷ [])).snapshot
        ≡ held_view base (length empties + 1) last
  unfolding publish_all publish
  publish_all_holds [] last cache fresh at_base none_read e =
      ap (λ s. merge_crawl s last) at_base ∙ hold_first base last h fresh e
  publish_all_holds (s ∷ empties) last cache fresh at_base none_read e =
      publish_all-held empties last s 1 (publish s cache) none_read.1 e
        (ap (λ t. merge_crawl t s) at_base ∙ hold_first base s h fresh none_read.0)
      ∙ ap (λ n. held_view base n last) (one_more (length empties))

-- The node list is derived from the snapshot beside it, and the peers are counted right.
pub record IsConsistent (cache : NodeCache) : Type 0 where
  pub derived : cache.nodes ≡ node_entries cache.snapshot
  pub counted : cache.snapshot.num_peers ≡ length cache.snapshot.peers

merge_crawl-counted :
    (served fresh : Snapshot)
    → served.num_peers ≡ length served.peers
    → fresh.num_peers ≡ length fresh.peers
    → (merge_crawl served fresh).num_peers ≡ length (merge_crawl served fresh).peers
unfolding merge_crawl
merge_crawl-counted served fresh h e = ground arith

pub new-IsConsistent : (now : DateTime) → IsConsistent (new now)
unfolding new node_entries
new-IsConsistent now = record { derived = refl; counted = refl }

pub publish-IsConsistent :
    (fresh : Snapshot) (cache : NodeCache)
    → fresh.num_peers ≡ length fresh.peers
    → IsConsistent cache
    → IsConsistent (publish fresh cache)
unfolding publish
publish-IsConsistent fresh cache e c = record {
  derived = refl;
  counted = merge_crawl-counted cache.snapshot fresh c.counted e;
}

pub publish_all-IsConsistent :
    (crawls : List Snapshot) (cache : NodeCache)
    → All (λ s. s.num_peers ≡ length s.peers) crawls
    → IsConsistent cache
    → IsConsistent (publish_all cache crawls)
unfolding publish_all
publish_all-IsConsistent [] cache h c = c
publish_all-IsConsistent (s ∷ crawls) cache h c =
    publish_all-IsConsistent crawls (publish s cache) h.1 (publish-IsConsistent s cache h.0 c)

-- From an empty cache, after any crawls that each count their peers right, the flat node list is
-- the one derived from the served snapshot and holds as many nodes as the snapshot says peers.
pub publish_all_consistent :
    (now : DateTime) (crawls : List Snapshot)
    → All (λ s. s.num_peers ≡ length s.peers) crawls
    → ((publish_all (new now) crawls).nodes ≡ node_entries (publish_all (new now) crawls).snapshot)
      × (length (publish_all (new now) crawls).nodes
          ≡ (publish_all (new now) crawls).snapshot.num_peers)
publish_all_consistent now crawls h =
    let c = publish_all-IsConsistent crawls (new now) h (new-IsConsistent now) in
    (c.derived, ap length c.derived ∙ unfold node_entries in length-map _ _ ∙ sym c.counted)
