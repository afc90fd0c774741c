-- ===== src/Assemble/Shuffles/Lookups.antt =====
-- `build_snapshot` of map-server/src/crawler.rs reads the observed peers and the located ones by
-- their ids only.
use mathlib.Core.Path.{ap₂, fun_ext}
use kwaai_net_map.Prelude.{
  String, Bool, Option, none, some, List, [], ◌∷◌, ◌≡◌, refl, ap, ◌∙◌, ◌>>=◌, is_empty, find_map,
  arith, Assoc, lookup, Option-cases, Bool-cases, inl, inr,
}
use kwaai_net_map.Prelude.Shuffle.{SameMap}
use kwaai_net_map.Snapshot.{ServerInfo, Location}
use kwaai_net_map.Snapshot.ShortId.{short_peer_id}
use kwaai_net_map.Multiaddr.{relay_peer_id_of}
use kwaai_net_map.Observed.{Observed}
use kwaai_net_map.Assemble.{Model, PeerModelEntry, borrow, locate_row, peer_ip_info_for}
use kwaai_net_map.Assemble.Rows.{peer_row}
use kwaai_net_map.Assemble.Build.{
  Tally, Assembly, server_row, visit_peer, visit_peers, visit_model, visit_models,
}

borrow_ext :
    (known others : Assoc Location) (addr : String)
    → SameMap known others
    → borrow known addr ≡ borrow others addr
unfolding borrow
borrow_ext known others addr agree = elim (Option-cases (relay_peer_id_of addr)) [
  | inl no_relay ↦ rw no_relay refl
  | inr (id, relay) ↦ rw relay (rw (agree id) refl)
]

module _ (locate : List String → Location) where
  locate_row_ext :
      (addrs : List String) (known others : Assoc Location)
      → SameMap known others
      → locate_row locate addrs known ≡ locate_row locate addrs others
  unfolding locate_row
  locate_row_ext addrs known others agree = ground (
    arith,
    ap (λ (f : String → Option Location). find_map f addrs)
        (fun_ext (λ addr. borrow_ext known others addr agree)),
  )

  peer_ip_info_for_ext :
      (o : Option Observed) (relay : Option Bool) (known others : Assoc Location)
      → SameMap known others
      → peer_ip_info_for locate o relay known ≡ peer_ip_info_for locate o relay others
  unfolding peer_ip_info_for
  peer_ip_info_for_ext none relay known others agree = refl
  peer_ip_info_for_ext (some o) relay known others agree =
      ground (arith, locate_row_ext o.addrs known others agree)

  module _ (addrs seen : Assoc Observed) (known others : Assoc Location)
      (same_seen : SameMap addrs seen) (same_known : SameMap known others) where
    info_ext :
        (id : String) (relay : Option Bool)
        → peer_ip_info_for locate (lookup id addrs) relay known
          ≡ peer_ip_info_for locate (lookup id seen) relay others
    info_ext id relay =
        ap (λ o. peer_ip_info_for locate o relay known) (same_seen id)
        ∙ peer_ip_info_for_ext (lookup id seen) relay known others same_known

    server_row_ext :
        (id : String) (entry : PeerModelEntry)
        → server_row locate addrs known id entry ≡ server_row locate seen others id entry
    unfolding server_row
    server_row_ext id entry = elim (Option-cases (short_peer_id id)) [
      | inl panic ↦ rw panic refl
      | inr (short, cut) ↦ rw cut (rw (info_ext id entry.info.using_relay) refl)
    ]

    visit_peer_ext :
        (dial_errors : Assoc String) (id : String) (entry : PeerModelEntry) (t : Tally)
        → visit_peer locate addrs known dial_errors id entry t
          ≡ visit_peer locate seen others dial_errors id entry t
    unfolding visit_peer
    visit_peer_ext dial_errors id entry t = rw (server_row_ext id entry) refl

    visit_peers_ext :
        (dial_errors : Assoc String) (peers : Assoc PeerModelEntry) (t : Tally)
        → visit_peers locate addrs known dial_errors peers t
          ≡ visit_peers locate seen others dial_errors peers t
    unfolding visit_peers
    visit_peers_ext dial_errors [] t = refl
    visit_peers_ext dial_errors ((id, entry) ∷ peers) t =
        ap₂ (λ (o : Option Tally) (k : Tally → Option Tally). o >>= k)
          (visit_peer_ext dial_errors id entry t) (fun_ext (visit_peers_ext dial_errors peers))

    visit_model_ext :
        (per_model : Assoc (Assoc PeerModelEntry)) (dial_errors : Assoc String) (model : Model)
        (a : Assembly)
        → visit_model locate addrs known per_model dial_errors model a
          ≡ visit_model locate seen others per_model dial_errors model a
    unfolding visit_model
    visit_model_ext per_model dial_errors model a =
        elim (Option-cases (lookup model.dht_prefix per_model)) [
          | inl unknown ↦ rw (unknown, visit_model) refl
          | inr (peers, found) ↦
              rw (found, visit_model)
                (elim (Bool-cases (is_empty peers)) [
                  | inl empty ↦ rw empty refl
                  | inr some_peers ↦ rw (some_peers, visit_peers_ext dial_errors peers _) refl
                ])
        ]

    pub visit_models_ext :
        (per_model : Assoc (Assoc PeerModelEntry)) (dial_errors : Assoc String)
        (models : List Model) (a : Assembly)
        → visit_models locate addrs known per_model dial_errors models a
          ≡ visit_models locate seen others per_model dial_errors models a
    unfolding visit_models
    visit_models_ext per_model dial_errors [] a = refl
    visit_models_ext per_model dial_errors (model ∷ models) a =
        ap₂ (λ (o : Option Assembly) (k : Assembly → Option Assembly). o >>= k)
          (visit_model_ext per_model dial_errors model a)
          (fun_ext (visit_models_ext per_model dial_errors models))

    pub peer_row_ext :
        (b c : Assoc (Model × PeerModelEntry)) (capable infos : Assoc ServerInfo) (id : String)
        → SameMap b c
        → SameMap capable infos
        → peer_row locate addrs known b capable id ≡ peer_row locate seen others c infos id
    unfolding peer_row
    peer_row_ext b c capable infos id same_blocks same_infos =
        elim (Option-cases (short_peer_id id)) [
          | inl panic ↦ rw panic refl
          | inr (short, cut) ↦
              rw (cut, same_blocks id, same_infos id, info_ext id _, same_seen id) refl
        ]
