-- ===== src/Assemble/Rows.antt =====
-- The peers that get a row, and their rows: `build_snapshot` of map-server/src/crawler.rs.
use kwaai_net_map.Prelude.{
  String, false, not, ◌&&◌, Option, none, some, List, [], ◌∷◌, ◌++◌, ◌==◌, if◌then◌else◌, ◌>>=◌,
  or_else, map_option, is_some, unwrap_or, select, Assoc, keys, lookup,
}
use kwaai_net_map.Prelude.Sorting.{member, text_set}
use kwaai_net_map.Snapshot.{ServerInfo, Location, PeerRow}
use kwaai_net_map.Snapshot.ShortId.{short_peer_id}
use kwaai_net_map.Observed.{Observed}
use kwaai_net_map.Assemble.{
  Model, PeerModelEntry, is_online, last_segment, model_name, peer_ip_info_for,
}

-- `block_of.entry(id).and_modify(..).or_insert((model, entry))`
unfoldable pub note_block :
    Model
    → String
    → PeerModelEntry
    → Assoc (Model × PeerModelEntry)
    → Assoc (Model × PeerModelEntry)
note_block model id entry [] = (id, (model, entry)) ∷ []
note_block model id entry ((j, cur) ∷ blocks) =
    if j == id
    then (j, if not (is_online cur.1.info) && is_online entry.info then (model, entry) else cur)
      ∷ blocks
    else (j, cur) ∷ note_block model id entry blocks

unfoldable pub note_blocks :
    Model → Assoc PeerModelEntry → Assoc (Model × PeerModelEntry) → Assoc (Model × PeerModelEntry)
unfolding note_block
note_blocks model [] blocks = blocks
note_blocks model ((id, entry) ∷ peers) blocks =
    note_blocks model peers (note_block model id entry blocks)

unfoldable pub block_of :
    List Model
    → Assoc (Assoc PeerModelEntry)
    → Assoc (Model × PeerModelEntry)
    → Assoc (Model × PeerModelEntry)
unfolding note_blocks
block_of [] per_model blocks = blocks
block_of (model ∷ models) per_model blocks =
    block_of models per_model
      (note_blocks model (unwrap_or (lookup model.dht_prefix per_model) []) blocks)

abbrev pub kad_peers : Assoc Observed → List String
kad_peers addrs = keys (select (λ (e : String × Observed). e.1.kwaai_kad) addrs)

-- The peers that get a row, in the order of their ids.
unfoldable pub row_ids :
    Assoc (Model × PeerModelEntry) → Assoc ServerInfo → Assoc Observed → List String → List String
row_ids blocks capability_peers addrs exclude = text_set (
    select (λ id. not (member id exclude))
      (keys blocks ++ (keys capability_peers ++ kad_peers addrs)))

abbrev pub field {ℓ} : {A : Type ℓ} → (ServerInfo → Option A) → Option ServerInfo → Option A
field f none = none
field f (some info) = f info

module _ (locate : List String → Location) (addrs : Assoc Observed) (known : Assoc Location) where
  unfoldable pub peer_row :
      Assoc (Model × PeerModelEntry) → Assoc ServerInfo → String → Option PeerRow
  unfolding model_name last_segment
  peer_row blocks capability_peers id = do
    short ← short_peer_id id
    let block = lookup id blocks
    let info : Option ServerInfo =
        or_else (map_option (λ (b : Model × PeerModelEntry). b.1.info) block)
          (lookup id capability_peers)
    let observed = lookup id addrs
    let using_relay = field (λ i. i.using_relay) info
    some (record {
      peer_id = id;
      short_peer_id = short;
      public_name = field (λ i. i.public_name) info;
      version =
          or_else (field (λ i. i.version) info)
            (elim observed [ none ↦ none | some o ↦ o.agent_version ]);
      state = unwrap_or (map_option (λ (i : ServerInfo). i.state) info) "unannounced";
      shard_loading = unwrap_or (field (λ i. i.shard_loading) info) false;
      model =
          map_option
            (λ (b : Model × PeerModelEntry).
              last_segment (model_name b.0.repository b.0.dht_prefix))
            block;
      span =
          map_option
            (λ (b : Model × PeerModelEntry). record {
              start = b.1.info.start_block;
              end = b.1.info.end_block;
            })
            block;
      throughput = unwrap_or (map_option (λ (i : ServerInfo). i.throughput) info) 0;
      using_relay = using_relay;
      vpk = field (λ i. i.vpk) info;
      trust_attestations = unwrap_or (map_option (λ (i : ServerInfo). i.trust_attestations) info) 0;
      peer_ip_info = peer_ip_info_for locate observed using_relay known;
      kad = unwrap_or (map_option (λ (o : Observed). o.kwaai_kad) observed) false;
      announced = is_some info;
    })
