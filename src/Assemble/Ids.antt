-- ===== src/Assemble/Ids.antt =====
-- The peers that `build_snapshot` cuts the ids of, map-server/src/crawler.rs.
use kwaai_net_map.Prelude.{
  String, Bool, not, ◌||◌, List, [], ◌∷◌, ◌++◌, ◌≡◌, refl, eq_iff, ap, ◌∙◌, any, arith, any-append,
  select-append, Assoc, keys, select,
}
use kwaai_net_map.Prelude.Sorting.{member, any-text_set}
use kwaai_net_map.Snapshot.{ServerInfo}
use kwaai_net_map.Observed.{Observed}
use kwaai_net_map.Assemble.{Model, PeerModelEntry}
use kwaai_net_map.Assemble.Rows.{note_block, note_blocks, block_of, kad_peers, row_ids}
use kwaai_net_map.Assemble.Issues.{peers_of}

-- The peers with records under the models.
abbrev pub reported_ids : Assoc (Assoc PeerModelEntry) → List Model → List String
reported_ids per_model [] = []
reported_ids per_model (m ∷ models) = keys (peers_of per_model m) ++ reported_ids per_model models

pub any-reported_ids :
    (p : String → Bool) (per_model : Assoc (Assoc PeerModelEntry)) (models : List Model)
    → any p (reported_ids per_model models) ≡ any (λ m. any p (keys (peers_of per_model m))) models
any-reported_ids p per_model [] = refl
any-reported_ids p per_model (m ∷ models) = ground (
  arith,
  any-append p (keys (peers_of per_model m)) (reported_ids per_model models),
  any-reported_ids p per_model models,
)

any-note_block :
    (p : String → Bool) (model : Model) (id : String) (entry : PeerModelEntry)
    (blocks : Assoc (Model × PeerModelEntry))
    → any p (keys (note_block model id entry blocks)) ≡ (p id || any p (keys blocks))
unfolding note_block
any-note_block p model id entry [] = refl
any-note_block p model id entry ((j, cur) ∷ blocks) =
    ground (arith, any-note_block p model id entry blocks, eq_iff j id)

any-note_blocks :
    (p : String → Bool) (model : Model) (peers : Assoc PeerModelEntry)
    (blocks : Assoc (Model × PeerModelEntry))
    → any p (keys (note_blocks model peers blocks)) ≡ (any p (keys peers) || any p (keys blocks))
unfolding note_blocks
any-note_blocks p model [] blocks = refl
any-note_blocks p model ((id, entry) ∷ peers) blocks =
    any-note_blocks p model peers (note_block model id entry blocks)
    ∙ ground (arith, any-note_block p model id entry blocks)

pub any-block_of :
    (p : String → Bool) (models : List Model) (per_model : Assoc (Assoc PeerModelEntry))
    (blocks : Assoc (Model × PeerModelEntry))
    → any p (keys (block_of models per_model blocks))
      ≡ (any p (reported_ids per_model models) || any p (keys blocks))
unfolding block_of
any-block_of p [] per_model blocks = refl
any-block_of p (m ∷ models) per_model blocks =
    any-block_of p models per_model (note_blocks m (peers_of per_model m) blocks)
    ∙ ground (
      arith,
      any-note_blocks p m (peers_of per_model m) blocks,
      any-append p (keys (peers_of per_model m)) (reported_ids per_model models),
    )

-- The peers without a record that get a row: those with a capability record and those connected by
-- the kad protocol, but the excluded.
abbrev pub other_ids : Assoc ServerInfo → Assoc Observed → List String → List String
other_ids capability_peers addrs exclude =
    select (λ id. not (member id exclude)) (keys capability_peers ++ kad_peers addrs)

pub any-row_ids :
    (p : String → Bool) (blocks : Assoc (Model × PeerModelEntry))
    (capability_peers : Assoc ServerInfo) (addrs : Assoc Observed) (exclude : List String)
    → any p (row_ids blocks capability_peers addrs exclude) ≡ (
        any p (select (λ id. not (member id exclude)) (keys blocks))
        || any p (other_ids capability_peers addrs exclude))
unfolding row_ids
any-row_ids p blocks capability_peers addrs exclude =
    any-text_set p _
    ∙ ap (any p) (
        select-append (λ id. not (member id exclude)) (keys blocks)
          (keys capability_peers ++ kad_peers addrs))
    ∙ any-append p _ _
