-- ===== src/Document/Marks.antt =====
-- Which members the document at `/api/v1/state` has: the marks of holding are there while a snapshot
-- is held, and only then.
use kwaai_net_map.Prelude.{
  ℕ, zero, suc, ◌%◌, ◌<◌, String, Option, none, some, List, [], ◌∷◌, ◌++◌, if◌then◌else◌,
  map_option, ◌≡◌, ap, ◌∙◌, length, All, arith, eqb,
}
use kwaai_net_map.Prelude.Json.{Json, Members}
use kwaai_net_map.Snapshot.{DateTime, Snapshot, is_zero}
use kwaai_net_map.Cache.{NodeCache, merge_crawl, publish}
use kwaai_net_map.Cache.Holding.{publish_all, IsFresh}
use kwaai_net_map.Cache.Recovery.{publish_all-recovers, publish_all-append, publish-read}
use kwaai_net_map.Routes.{get_v1_state}
use kwaai_net_map.Document.Slots.{members, struct, get}
use kwaai_net_map.Document.{write_snapshot, snapshot_slots}

abbrev pub member_names : Members → List String
member_names Members.end = []
member_names (Members.member name v ms) = name ∷ member_names ms

-- The names of an object's members, in their order.
abbrev pub names : Json → List String
names (Json.object ms) = member_names ms
names _ = []

-- The value under a name of an object.
abbrev pub under : String → Json → Option Json
under name (Json.object ms) = get name ms
under name _ = none

-- The members that v1 has always served.
abbrev pub v1_names : List String
v1_names =
    "bootstrap_states" ∷ "model_reports" ∷ "num_peers" ∷ "num_blocks_covered" ∷ "top_contributors"
    ∷ "reachability_issues" ∷ "last_updated" ∷ "update_period" ∷ "update_duration" ∷ []

-- The members of a document after `k` crawls that read no peers.
abbrev pub names_after : ℕ → List String
names_after k =
    v1_names
    ++ (if eqb k 0 then [] else "stale_since" ∷ [])
    ++ (if eqb (k % 4294967296) 0 then [] else "crawls_held" ∷ [])
    ++ "peers" ∷ []

-- The time under `stale_since` after `k` such crawls.
abbrev pub stale_after : ℕ → DateTime → Option DateTime
stale_after zero t = none
stale_after (suc k) t = some t

stale_kept :
    (empties : List Snapshot) (c : NodeCache) (t : DateTime)
    → 0 < c.snapshot.num_peers
    → c.snapshot.stale_since ≡ some t
    → All (λ s. s.num_peers ≡ 0) empties
    → (publish_all c empties).snapshot.stale_since ≡ some t
unfolding publish_all
stale_kept [] c t h stale none_read = stale
stale_kept (s ∷ empties) c t h stale none_read =
    stale_kept empties (publish s c) t (unfold publish merge_crawl in ground (arith, none_read.0))
      (unfold publish merge_crawl in ground (arith, none_read.0)) none_read.1

stale_lem :
    (empties : List Snapshot) (c : NodeCache)
    → 0 < c.snapshot.num_peers
    → c.snapshot.stale_since ≡ none
    → All (λ s. s.num_peers ≡ 0) empties
    → (publish_all c empties).snapshot.stale_since
      ≡ stale_after (length empties) c.snapshot.last_updated
unfolding publish_all
stale_lem [] c h fresh none_read = fresh
stale_lem (s ∷ empties) c h fresh none_read =
    stale_kept empties (publish s c) c.snapshot.last_updated
      (unfold publish merge_crawl in ground (arith, none_read.0))
      (unfold publish merge_crawl in ground (arith, none_read.0)) none_read.1

stale_served :
    (c : NodeCache) (before : List Snapshot) (fresh : Snapshot) (empties : List Snapshot)
    → IsFresh fresh
    → 0 < fresh.num_peers
    → All (λ s. s.num_peers ≡ 0) empties
    → (publish_all c (before ++ fresh ∷ empties)).snapshot.stale_since
      ≡ stale_after (length empties) fresh.last_updated
unfolding publish_all
stale_served c before fresh empties good h none_read =
    ap (λ d. d.snapshot.stale_since) (publish_all-append c before (fresh ∷ empties))
    ∙ ap (λ d. (publish_all d empties).snapshot.stale_since)
        (publish-read fresh (publish_all c before) h)
    ∙ stale_lem empties _ h good.no_stale none_read

module _ (date_text : DateTime → String) where
  names_lem :
      (s : Snapshot) (k : ℕ) (t : DateTime)
      → s.stale_since ≡ stale_after k t
      → s.crawls_held ≡ k % 4294967296
      → (names (write_snapshot date_text s) ≡ names_after k)
        × (under "stale_since" (write_snapshot date_text s)
            ≡ map_option (λ u. Json.string (date_text u)) (stale_after k t))
  unfolding write_snapshot snapshot_slots struct members get is_zero
  names_lem s zero t stale held = rw (stale, held) (ground arith)
  names_lem s (suc k) t stale held = rw (stale, held) (ground arith)

  -- Whatever was served and whatever crawls came before, once a crawl that bears no mark of holding
  -- reads peers and any number of crawls after it read none, the served document has v1's members
  -- in their order and `peers` behind them; `stale_since` stands before `peers` exactly when a crawl
  -- was held off, with the time of the crawl that read, and `crawls_held` exactly when the number of
  -- those held off is not a multiple of 2 ^ 32.
  pub state_names :
      (c : NodeCache) (before : List Snapshot) (fresh : Snapshot) (empties : List Snapshot)
      → IsFresh fresh
      → 0 < fresh.num_peers
      → All (λ s. s.num_peers ≡ 0) empties
      → (names (write_snapshot date_text (get_v1_state (publish_all c (before ++ fresh ∷ empties))))
          ≡ names_after (length empties))
        × (under "stale_since"
              (write_snapshot date_text (get_v1_state (publish_all c (before ++ fresh ∷ empties))))
            ≡ map_option
                (λ t. Json.string (date_text t))
                (stale_after (length empties) fresh.last_updated))
  unfolding get_v1_state
  state_names c before fresh empties good h none_read =
      names_lem _ (length empties) fresh.last_updated
        (stale_served c before fresh empties good h none_read)
        (publish_all-recovers c before fresh empties good h none_read).held
