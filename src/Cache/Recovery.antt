-- ===== src/Cache/Recovery.antt =====
-- What is served once a crawl reads peers again, whatever came before.
use mathlib.Core.Path.{subst}
use kwaai_net_map.Prelude.{
  ℕ, ◌+◌, ◌%◌, ◌<◌, some, or_else, List, [], ◌∷◌, ◌++◌, ◌≡◌, refl, length, All, arith,
}
use kwaai_net_map.Snapshot.{Snapshot}
use kwaai_net_map.Cache.{NodeCache, merge_crawl, node_entries, publish}
use kwaai_net_map.Cache.Holding.{publish_all, IsFresh}

pub publish_all-append :
    (c : NodeCache) (crawls more : List Snapshot)
    → publish_all c (crawls ++ more) ≡ publish_all (publish_all c crawls) more
unfolding publish_all
publish_all-append c [] more = refl
publish_all-append c (s ∷ crawls) more = publish_all-append (publish s c) crawls more

merge_crawl-read :
    (served fresh : Snapshot) → 0 < fresh.num_peers → merge_crawl served fresh ≡ fresh
unfolding merge_crawl
merge_crawl-read served fresh h = ground arith

pub publish-read :
    (fresh : Snapshot) (c : NodeCache)
    → 0 < fresh.num_peers
    → publish fresh c ≡ record { snapshot = fresh; nodes = node_entries fresh }
unfolding publish
publish-read fresh c h = ground (arith, merge_crawl-read c.snapshot fresh h)

-- The crawl's data is what is served, after `k` crawls that read no peers.
pub record IsHeld (base : Snapshot) (k : ℕ) (c : NodeCache) : Type 0 where
  pub reports : c.snapshot.model_reports ≡ base.model_reports
  pub contributors : c.snapshot.top_contributors ≡ base.top_contributors
  pub issues : c.snapshot.reachability_issues ≡ base.reachability_issues
  pub blocks : c.snapshot.num_blocks_covered ≡ base.num_blocks_covered
  pub count : c.snapshot.num_peers ≡ base.num_peers
  pub peers : c.snapshot.peers ≡ base.peers
  pub read_at : c.snapshot.last_updated ≡ base.last_updated
  pub held : c.snapshot.crawls_held ≡ k % 4294967296
  pub nodes : c.nodes ≡ node_entries base

hold_one :
    (base s : Snapshot) (k : ℕ) (c : NodeCache)
    → 0 < base.num_peers
    → s.num_peers ≡ 0
    → IsHeld base k c
    → IsHeld base (k + 1) (publish s c)
unfolding publish merge_crawl
hold_one base s k c h e held =
    let count = held.count in
    let kept : publish s c ≡ record {
      snapshot = record c.snapshot {
        bootstrap_states = s.bootstrap_states;
        update_period = s.update_period;
        update_duration = s.update_duration;
        stale_since = or_else c.snapshot.stale_since (some c.snapshot.last_updated);
        crawls_held = (c.snapshot.crawls_held + 1) % 4294967296;
      };
      nodes = node_entries c.snapshot;
    } =
      ground arith in
    rw kept (record {
      reports = held.reports;
      contributors = held.contributors;
      issues = held.issues;
      blocks = held.blocks;
      count = held.count;
      peers = held.peers;
      read_at = held.read_at;
      held = omega (arith, held.held);
      nodes = unfold node_entries in rw (held.peers, held.read_at) refl;
    })

hold_empties :
    (base : Snapshot) (empties : List Snapshot) (k : ℕ) (c : NodeCache)
    → 0 < base.num_peers
    → All (λ s. s.num_peers ≡ 0) empties
    → IsHeld base k c
    → IsHeld base (k + length empties) (publish_all c empties)
unfolding publish_all
hold_empties base [] k c h none_read held = subst (λ n. IsHeld base n c) (omega arith) held
hold_empties base (s ∷ empties) k c h none_read held =
    let rest =
      hold_empties base empties (k + 1) (publish s c) h none_read.1
        (hold_one base s k c h none_read.0 held) in
    subst (λ n. IsHeld base n (publish_all (publish s c) empties)) (omega arith) rest

-- Whatever was served and whatever crawls came before, once a crawl that bears no mark of holding
-- reads peers and any number of crawls after it read none, the data and the node list that are
-- served are those of that crawl, and `crawls_held` is the number of the crawls after it, modulo
-- 2 ^ 32.
pub publish_all-recovers :
    (c : NodeCache) (before : List Snapshot) (fresh : Snapshot) (empties : List Snapshot)
    → IsFresh fresh
    → 0 < fresh.num_peers
    → All (λ s. s.num_peers ≡ 0) empties
    → IsHeld fresh (length empties) (publish_all c (before ++ fresh ∷ empties))
unfolding publish_all
publish_all-recovers c before fresh empties good h none_read =
    let start : IsHeld fresh 0 (publish fresh (publish_all c before)) =
      rw (publish-read fresh (publish_all c before) h) (record {
        reports = refl;
        contributors = refl;
        issues = refl;
        blocks = refl;
        count = refl;
        peers = refl;
        read_at = refl;
        held = good.not_held;
        nodes = refl;
      }) in
    let served = publish fresh (publish_all c before) in
    rw (publish_all-append c before (fresh ∷ empties)) (
      subst (λ n. IsHeld fresh n (publish_all served empties)) (omega arith)
        (hold_empties fresh empties 0 served h none_read start))
