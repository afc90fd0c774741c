-- ===== src/Assemble/Peers.antt =====
-- Which peers get a row.
use kwaai_net_map.Prelude.{
  String, not, ◌&&◌, ◌||◌, Option, some, List, [], ◌∷◌, ◌++◌, map, ◌≡◌, ap, ◌∙◌, ◌==◌, inl, inr,
  any, length, arith, Assoc, keys, Option-cases,
}
use kwaai_net_map.Prelude.Order.{text_set-IsSorted}
use kwaai_net_map.Prelude.Sorting.{
  before, IsSorted, member, member-text_set, member-append, member-select,
}
use kwaai_net_map.Snapshot.{DateTime, ServerInfo, Location, Contributor, PeerRow, Snapshot}
use kwaai_net_map.Snapshot.ShortId.{short_peer_id}
use kwaai_net_map.Observed.{Observed}
use kwaai_net_map.Cache.Holding.{IsFresh}
use kwaai_net_map.Assemble.{Model, PeerModelEntry, map_all}
use kwaai_net_map.Assemble.Build.{visit_models, no_reports, known_locations, build_snapshot}
use kwaai_net_map.Assemble.Ids.{any-reported_ids, any-block_of}
use kwaai_net_map.Assemble.Rows.{block_of, kad_peers, row_ids, peer_row}
use kwaai_net_map.Assemble.Issues.{peers_of}

module _ (id : String) where
  keys-block_of :
      (models : List Model) (per_model : Assoc (Assoc PeerModelEntry))
      → member id (keys (block_of models per_model []))
        ≡ any (λ m. member id (keys (peers_of per_model m))) models
  keys-block_of models per_model =
      any-block_of (λ j. j == id) models per_model []
      ∙ ground (arith, any-reported_ids (λ j. j == id) per_model models)

  member-row_ids :
      (models : List Model) (per_model : Assoc (Assoc PeerModelEntry))
      (capability_peers : Assoc ServerInfo) (addrs : Assoc Observed) (exclude : List String)
      → member id (row_ids (block_of models per_model []) capability_peers addrs exclude) ≡ (
          not (member id exclude)
          && (any (λ m. member id (keys (peers_of per_model m))) models
              || member id (keys capability_peers)
              || member id (kad_peers addrs)))
  unfolding row_ids
  member-row_ids models per_model capability_peers addrs exclude =
      let blocks = block_of models per_model [] in
      member-text_set id _
      ∙ member-select (λ i. not (member i exclude)) id _
      ∙ ground (
        arith,
        member-append id (keys blocks) (keys capability_peers ++ kad_peers addrs),
        member-append id (keys capability_peers) (kad_peers addrs),
        keys-block_of models per_model,
      )

map-map_all {ℓ} :
    {B : Type ℓ} (f : String → Option B) (g : B → String)
    → ((s : String) (b : B) → f s ≡ some b → g b ≡ s)
    → (l : List String) (m : List B) → map_all f l ≡ some m
    → map g m ≡ l
unfolding map_all
map-map_all f g h [] m e = ground arith
map-map_all f g h (s ∷ l) m e = elim (Option-cases (f s)) [
  | inl panic ↦ absurd (ground arith)
  | inr (b, made) ↦ elim (Option-cases (map_all f l)) [
    | inl panic ↦ absurd (ground arith)
    | inr (bs, rest) ↦ ground (arith, map-map_all f g h l bs rest, h s b made)
  ]
]

module _ (locate : List String → Location) (addrs : Assoc Observed) (known : Assoc Location)
    (blocks : Assoc (Model × PeerModelEntry)) (capability_peers : Assoc ServerInfo) where
  peer_id-peer_row :
      (id : String) (row : PeerRow)
      → peer_row locate addrs known blocks capability_peers id ≡ some row
      → row.peer_id ≡ id
  unfolding peer_row
  peer_id-peer_row id row e = elim (Option-cases (short_peer_id id)) [
    | inl panic ↦ absurd (ground arith)
    | inr (short, made) ↦ ground arith
  ]

module _ (into_values : Assoc Contributor → List Contributor) (locate : List String → Location)
    (now : DateTime) (bootstrap_states : List String) (models : List Model)
    (per_model : Assoc (Assoc PeerModelEntry)) (capability_peers : Assoc ServerInfo)
    (addrs : Assoc Observed) (dial_errors : Assoc String) (exclude : List String) (s : Snapshot)
    (built : build_snapshot into_values locate now bootstrap_states models per_model
        capability_peers addrs dial_errors exclude
      ≡ some s) where
  row_ids-build_snapshot :
      (map (λ r. r.peer_id) s.peers
        ≡ row_ids (block_of models per_model []) capability_peers addrs exclude)
      × (s.num_peers ≡ length s.peers)
      × IsFresh s
  unfolding build_snapshot
  row_ids-build_snapshot =
      let known = known_locations locate addrs in
      let blocks = block_of models per_model [] in
      let ids = row_ids blocks capability_peers addrs exclude in
      elim (Option-cases
        (visit_models locate addrs known per_model dial_errors models no_reports)) [
          | inl panic ↦ absurd (ground arith)
          | inr (a, visited) ↦
              elim (Option-cases
                (map_all (peer_row locate addrs known blocks capability_peers) ids)) [
                  | inl panic ↦ absurd (ground arith)
                  | inr (rows, made) ↦
                      let same =
                        map-map_all (peer_row locate addrs known blocks capability_peers)
                          (λ r. r.peer_id)
                          (peer_id-peer_row locate addrs known blocks capability_peers) ids rows
                          made in
                      let rows_built : s.peers ≡ rows = ground arith in
                      (
                        rw rows_built same,
                        ground arith,
                        record { no_stale = ground arith; not_held = ground arith },
                      )
                ]
        ]

  -- The states are passed through.
  pub bootstrap_states-build_snapshot : s.bootstrap_states ≡ bootstrap_states
  unfolding build_snapshot
  bootstrap_states-build_snapshot =
      let known = known_locations locate addrs in
      let blocks = block_of models per_model [] in
      let ids = row_ids blocks capability_peers addrs exclude in
      elim (Option-cases
        (visit_models locate addrs known per_model dial_errors models no_reports)) [
          | inl panic ↦ absurd (ground arith)
          | inr (a, visited) ↦
              elim (Option-cases
                (map_all (peer_row locate addrs known blocks capability_peers) ids)) [
                  | inl panic ↦ absurd (ground arith)
                  | inr (rows, made) ↦ ground arith
                ]
        ]

  -- When the crawl's result is built without a panic, a peer has a row exactly when it is not one of
  -- the excluded peers and some listed model has a record of it, or a capability registry does, or
  -- it was identified over kad; and `num_peers` is the number of the rows.
  pub has_row_iff :
      (id : String)
      → (member id (map (λ r. r.peer_id) s.peers) ≡ (
          not (member id exclude)
          && (any (λ m. member id (keys (peers_of per_model m))) models
              || member id (keys capability_peers)
              || member id (kad_peers addrs))))
        × (s.num_peers ≡ length s.peers)
  has_row_iff id =
      let (ids, counted, fresh) = row_ids-build_snapshot in
      (
        ap (member id) ids ∙ member-row_ids id models per_model capability_peers addrs exclude,
        counted,
      )

  -- The result of a crawl is never marked as held.
  pub build_snapshot-IsFresh : IsFresh s
  build_snapshot-IsFresh = row_ids-build_snapshot.2

  -- The rows ascend by peer id.
  pub peers-IsSorted : IsSorted before (map (λ r. r.peer_id) s.peers)
  unfolding row_ids
  peers-IsSorted = rw (row_ids-build_snapshot.0) (text_set-IsSorted _)
