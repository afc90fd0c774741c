-- ===== src/Assemble/Build.antt =====
-- The pass of `build_snapshot` over the models, and the snapshot: map-server/src/crawler.rs.
use kwaai_net_map.Prelude.{
  ℕ, ◌+◌, String, Bool, not, ◌&&◌, ◌||◌, Option, none, some, List, [], ◌∷◌, ◌++◌, map, leb,
  if◌then◌else◌, ◌>>=◌, is_some, is_empty, length, Assoc, lookup,
}
use kwaai_net_map.Prelude.Int.{pos, ltb_ℤ, eqb_ℤ}
use kwaai_net_map.Prelude.Sets.{extend_nat}
use kwaai_net_map.Prelude.Sorting.{before, insert_sorted, sort}
use kwaai_net_map.Snapshot.{
  DateTime, ServerInfo, Location, ServerRow, ModelReport, Contributor, PeerRow, Snapshot,
}
use kwaai_net_map.Snapshot.ShortId.{short_peer_id}
use kwaai_net_map.Observed.{Observed}
use kwaai_net_map.Assemble.{
  Model, PeerModelEntry, map_all, is_online, last_segment, model_name, peer_ip_info_for,
}
use kwaai_net_map.Assemble.Ranking.{top_contributors}
use kwaai_net_map.Assemble.Rows.{block_of, row_ids, peer_row}

-- What the loop over one model's peers has gathered.
pub record Tally : Type 0 where
  pub covered : List ℕ
  pub issues : Assoc String
  pub server_rows : List ServerRow

-- What the loop over the models has gathered.
pub record Assembly : Type 0 where
  pub model_reports : List ModelReport
  pub blocks_covered : ℕ
  pub issues : Assoc String

-- The order of the rows: by the start of the span, then by the peer id.
unfoldable pub row_le : ServerRow → ServerRow → Bool
row_le a b =
    ltb_ℤ a.span.start b.span.start
    || (eqb_ℤ a.span.start b.span.start && not (before b.peer_id a.peer_id))

-- The order of the reports: most rows first.
unfoldable pub report_le : ModelReport → ModelReport → Bool
report_le a b = leb (length b.server_rows) (length a.server_rows)

unfoldable pub report_of : Model → Tally → ModelReport
unfolding model_name last_segment row_le
report_of model t =
    let name = model_name model.repository model.dht_prefix in
    record {
      short_name = last_segment name;
      name = name;
      dht_prefix = model.dht_prefix;
      repository = model.repository;
      num_blocks = model.num_blocks;
      state = if eqb_ℤ (pos (length t.covered)) model.num_blocks then "healthy" else "broken";
      server_rows = sort row_le t.server_rows;
    }

module _ (locate : List String → Location) (addrs : Assoc Observed) (known : Assoc Location) where
  unfoldable pub server_row : String → PeerModelEntry → Option ServerRow
  server_row peer_id entry = do
    short ← short_peer_id peer_id
    some (record {
      short_peer_id = short;
      peer_id = peer_id;
      show_public_name = is_some entry.info.public_name;
      state = entry.info.state;
      peer_ip_info = peer_ip_info_for locate (lookup peer_id addrs) entry.info.using_relay known;
      span = record {
        peer_id = peer_id;
        start = entry.info.start_block;
        end = entry.info.end_block;
        server_info = entry.info;
      };
    })

  -- One round of the loop over a model's peers.
  unfoldable pub visit_peer : Assoc String → String → PeerModelEntry → Tally → Option Tally
  unfolding server_row
  visit_peer dial_errors peer_id entry t = do
    row ← server_row peer_id entry
    some (record {
      covered = if is_online entry.info then extend_nat t.covered entry.blocks else t.covered;
      issues =
          if is_online entry.info
          then (elim (lookup peer_id dial_errors) [
            | none ↦ t.issues
            | some err ↦ insert_sorted peer_id err t.issues
          ])
          else t.issues;
      server_rows = t.server_rows ++ row ∷ [];
    })

  unfoldable pub visit_peers : Assoc String → Assoc PeerModelEntry → Tally → Option Tally
  unfolding visit_peer
  visit_peers dial_errors [] t = some t
  visit_peers dial_errors ((peer_id, entry) ∷ peers) t = do
    t' ← visit_peer dial_errors peer_id entry t
    visit_peers dial_errors peers t'

  -- One round of the loop over the models.
  unfoldable pub visit_model :
      Assoc (Assoc PeerModelEntry) → Assoc String → Model → Assembly → Option Assembly
  unfolding visit_peers report_of
  visit_model per_model dial_errors model a = elim (lookup model.dht_prefix per_model) [
    | none ↦ some a
    | some peers ↦ if is_empty peers then some a else do
      t ←
          visit_peers dial_errors peers
            (record { covered = []; issues = a.issues; server_rows = [] })
      some (record {
        model_reports = a.model_reports ++ report_of model t ∷ [];
        blocks_covered = a.blocks_covered + length t.covered;
        issues = t.issues;
      })
  ]

  unfoldable pub visit_models :
      Assoc (Assoc PeerModelEntry) → Assoc String → List Model → Assembly → Option Assembly
  unfolding visit_model
  visit_models per_model dial_errors [] a = some a
  visit_models per_model dial_errors (model ∷ models) a = do
    a' ← visit_model per_model dial_errors model a
    visit_models per_model dial_errors models a'

abbrev pub no_reports : Assembly
no_reports = record { model_reports = []; blocks_covered = 0; issues = [] }

-- `known`: the location of every connected peer.
abbrev pub known_locations : (List String → Location) → Assoc Observed → Assoc Location
known_locations locate addrs = map (λ (e : String × Observed). (e.0, locate e.1.addrs)) addrs

-- The snapshot of what the loops gathered.
abbrev pub finished :
    (Assoc Contributor → List Contributor)
    → DateTime
    → List String
    → Assembly
    → List ModelReport
    → List PeerRow
    → Snapshot
finished into_values now bootstrap_states a model_reports peers = record {
  top_contributors = top_contributors into_values model_reports;
  update_period = 0;
  update_duration = 0;
  bootstrap_states = bootstrap_states;
  num_peers = length peers;
  num_blocks_covered = a.blocks_covered;
  model_reports = model_reports;
  reachability_issues = map (λ (e : String × String). record { peer_id = e.0; err = e.1 }) a.issues;
  peers = peers;
  last_updated = now;
  stale_since = none;
  crawls_held = 0;
}

-- `none` is a panic of `short_peer_id`; `now` is the instant of `Utc::now()`.
module _ (into_values : Assoc Contributor → List Contributor) (locate : List String → Location)
    (now : DateTime) where
  unfoldable pub build_snapshot :
      List String
      → List Model
      → Assoc (Assoc PeerModelEntry)
      → Assoc ServerInfo
      → Assoc Observed
      → Assoc String
      → List String
      → Option Snapshot
  unfolding visit_models peer_row row_ids block_of top_contributors report_le
  build_snapshot bootstrap_states models per_model capability_peers addrs dial_errors exclude = do
    let known = known_locations locate addrs
    a ← visit_models locate addrs known per_model dial_errors models no_reports
    let model_reports = sort report_le a.model_reports
    let blocks = block_of models per_model []
    peers ←
        map_all (peer_row locate addrs known blocks capability_peers)
          (row_ids blocks capability_peers addrs exclude)
    some (finished into_values now bootstrap_states a model_reports peers)
