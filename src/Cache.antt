-- ===== src/Cache.antt =====
-- The served state: `merge_crawl`, `node_entries` and `tier_from_vc_count` of
-- map-server/src/crawler.rs, `NodeEntry` and `NodeCache` of map-server/src/cache.rs.
pub mod Holding
pub mod Coverage
pub mod Total
pub mod Swaps
pub mod Recovery
use Prim.Native.Nat.{min, max}
use kwaai_net_map.Prelude.{
  ℕ, zero, suc, ◌+◌, ◌%◌, String, Bool, true, false, ◌||◌, not, Option, none, some, List, [], ◌∷◌,
  map, ◌==◌, ltb, eqb, if◌then◌else◌, or_else, unwrap_or, map_option, is_some, length, count_if,
  replicate,
}
use kwaai_net_map.Prelude.Int.{ℤ, pos_part}
use kwaai_net_map.Prelude.F64.{F64, gt}
use kwaai_net_map.Snapshot.{
  DateTime, BlockSpan, ServerRow, ModelReport, PeerRow, Snapshot, default_snapshot,
}

-- The `u32` counter wraps, as in a release build.
unfoldable pub merge_crawl : Snapshot → Snapshot → Snapshot
merge_crawl served fresh =
    if ltb 0 fresh.num_peers || eqb served.num_peers 0 then fresh else record served {
      bootstrap_states = fresh.bootstrap_states;
      update_period = fresh.update_period;
      update_duration = fresh.update_duration;
      stale_since = or_else served.stale_since (some served.last_updated);
      crawls_held = (served.crawls_held + 1) % 4294967296;
    }

pub record NodeEntry : Type 0 where
  pub peer_id : String
  pub trust_tier : String
  pub start_block : ℕ
  pub end_block : ℕ
  pub throughput : F64
  pub public_name : String
  pub version : String
  pub vpk : Bool
  pub last_seen : DateTime

unfoldable pub tier_from_vc_count : ℕ → String
tier_from_vc_count zero = "Unknown"
tier_from_vc_count (suc zero) = "Known"
tier_from_vc_count (suc (suc zero)) = "Known"
tier_from_vc_count (suc (suc (suc zero))) = "Verified"
tier_from_vc_count (suc (suc (suc (suc zero)))) = "Verified"
tier_from_vc_count count = "Trusted"

-- `start.max(0) as usize`, 0 without a span.
abbrev pub block_or_zero : (BlockSpan → ℤ) → Option BlockSpan → ℕ
block_or_zero bound span = unwrap_or (map_option (λ s. pos_part (bound s)) span) 0

unfoldable pub node_entry : DateTime → PeerRow → NodeEntry
unfolding tier_from_vc_count
node_entry last_updated p = record {
  peer_id = p.peer_id;
  trust_tier = tier_from_vc_count p.trust_attestations;
  start_block = block_or_zero (λ s. s.start) p.span;
  end_block = block_or_zero (λ s. s.end) p.span;
  throughput = p.throughput;
  public_name = unwrap_or p.public_name "";
  version = unwrap_or p.version "";
  vpk = is_some p.vpk;
  last_seen = last_updated;
}

unfoldable pub node_entries : Snapshot → List NodeEntry
unfolding node_entry
node_entries snapshot = map (node_entry snapshot.last_updated) snapshot.peers

-- `throughput > 0.0`
unfoldable pub is_active : NodeEntry → Bool
is_active n = gt n.throughput 0

pub record NodeCache : Type 0 where
  pub snapshot : Snapshot
  pub nodes : List NodeEntry

-- `NodeCache::new()` at the instant `now`.
unfoldable pub new : DateTime → NodeCache
new now = record { snapshot = default_snapshot now; nodes = [] }

unfoldable pub publish : Snapshot → NodeCache → NodeCache
unfolding merge_crawl node_entries
publish fresh cache =
    let served = merge_crawl cache.snapshot fresh in
    record { snapshot = served; nodes = node_entries served }

-- The arithmetic of `f64`, which the language implements.
pub record FloatOps : Type 0 where
  pub of_usize : ℕ → F64
  pub div : F64 → F64 → F64
  pub mul : F64 → F64 → F64
  pub sum : List F64 → F64

pub record NetworkStats : Type 0 where
  pub node_count : ℕ
  pub tokens_per_sec : F64
  pub coverage_pct : F64
  pub active_sessions : ℕ
  pub total_blocks : ℕ

-- `iter().max()` of the reports' block counts.
unfoldable pub largest : List ModelReport → Option ℕ
largest [] = none
largest (m ∷ reports) = some (max (pos_part m.num_blocks) (unwrap_or (largest reports) 0))

abbrev pub positive : Option ℕ → Option ℕ
positive none = none
positive (some n) = if ltb 0 n then some n else none

unfoldable pub total_of : Option ℕ → List ModelReport → ℕ
unfolding largest
total_of total_blocks reports = unwrap_or (or_else total_blocks (positive (largest reports))) 80

-- `for slot in covered.iter_mut().take(end).skip(start) { *slot = true }`
unfoldable pub mark_range : ℕ → ℕ → List Bool → List Bool
mark_range start zero slots = slots
mark_range start (suc end) [] = []
mark_range zero (suc end) (slot ∷ slots) = true ∷ mark_range zero end slots
mark_range (suc start) (suc end) (slot ∷ slots) = slot ∷ mark_range start end slots

unfoldable pub mark_row : ℕ → ServerRow → List Bool → List Bool
unfolding mark_range
mark_row total row covered =
    if not (row.state == "online")
    then covered
    else mark_range (pos_part row.span.start) (min (pos_part row.span.end) total) covered

unfoldable pub mark_rows : ℕ → List ServerRow → List Bool → List Bool
unfolding mark_row
mark_rows total [] covered = covered
mark_rows total (row ∷ rows) covered = mark_rows total rows (mark_row total row covered)

unfoldable pub mark_reports : ℕ → List ModelReport → List Bool → List Bool
unfolding mark_rows
mark_reports total [] covered = covered
mark_reports total (report ∷ reports) covered =
    mark_reports total reports (mark_rows total report.server_rows covered)

unfoldable pub covered_count : ℕ → List ModelReport → ℕ
unfolding mark_reports
covered_count total reports = count_if (λ c. c) (mark_reports total reports (replicate total false))

module _ (ops : FloatOps) where
  unfoldable pub stats : NodeCache → Option ℕ → NetworkStats
  unfolding total_of covered_count is_active
  stats cache total_blocks =
      let total = total_of total_blocks cache.snapshot.model_reports in
      let covered = covered_count total cache.snapshot.model_reports in
      record {
        node_count = length cache.nodes;
        tokens_per_sec = ops.sum (map (λ n. n.throughput) cache.nodes);
        coverage_pct =
            if eqb total 0
            then 0
            else ops.mul (ops.div (ops.of_usize covered) (ops.of_usize total)) 4636737291354636288;
        active_sessions = count_if is_active cache.nodes;
        total_blocks = total;
      }
