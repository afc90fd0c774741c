-- ===== src/Assemble/Total.antt =====
-- When `build_snapshot` returns: the only panic is that of `short_peer_id`.
use Prim.Native.String.{len}
use text.Mathlib.Text.{get?}
use kwaai_net_map.Prelude.{
  ◌-◌, String, Bool, not, ◌&&◌, Option, List, [], ◌∷◌, ◌++◌, ◌≡◌, refl, inl, inr, any, arith, ltb,
  is_some, any-append, any-select, any-weaken, Assoc, keys, lookup, Option-cases,
}
use kwaai_net_map.Prelude.Sorting.{member}
use kwaai_net_map.Snapshot.{DateTime, ServerInfo, Location, Contributor}
use kwaai_net_map.Snapshot.ShortId.{short_peer_id}
use kwaai_net_map.Observed.{Observed}
use kwaai_net_map.Assemble.{Model, PeerModelEntry, map_all}
use kwaai_net_map.Assemble.Build.{
  Tally, Assembly, visit_peer, visit_peers, visit_model, visit_models, no_reports, known_locations,
  build_snapshot,
}
use kwaai_net_map.Assemble.Ids.{reported_ids, other_ids, any-block_of, any-row_ids}
use kwaai_net_map.Assemble.Rows.{block_of, row_ids, peer_row}
use kwaai_net_map.Assemble.Issues.{peers_of}

-- Longer than ten bytes, and the last six do not begin at the first byte of a character.
abbrev pub is_uncut : String → Bool
is_uncut id = ltb 10 (len id) && not (is_some (get? id (len id - 6) (len id)))

is_some-short_peer_id : (id : String) → is_some (short_peer_id id) ≡ not (is_uncut id)
unfolding short_peer_id
is_some-short_peer_id id = elim (Option-cases (get? id (len id - 6) (len id))) [
  | inl outside ↦ rw outside (ground arith)
  | inr (cut, e) ↦ rw e (ground arith)
]

module _ (locate : List String → Location) (addrs : Assoc Observed) (known : Assoc Location)
    (dial_errors : Assoc String) where
  is_some-visit_peer :
      (j : String) (entry : PeerModelEntry) (t : Tally)
      → is_some (visit_peer locate addrs known dial_errors j entry t) ≡ not (is_uncut j)
  unfolding visit_peer
  is_some-visit_peer j entry t = elim (Option-cases (short_peer_id j)) [
    | inl panic ↦ rw panic (ground (arith, is_some-short_peer_id j, panic))
    | inr (short, e) ↦ rw e (ground (arith, is_some-short_peer_id j, e))
  ]

  is_some-visit_peers :
      (peers : Assoc PeerModelEntry) (t : Tally)
      → is_some (visit_peers locate addrs known dial_errors peers t)
        ≡ not (any is_uncut (keys peers))
  unfolding visit_peers
  is_some-visit_peers [] t = refl
  is_some-visit_peers ((j, entry) ∷ peers) t =
      let here = is_some-visit_peer j entry t in
      elim (Option-cases (visit_peer locate addrs known dial_errors j entry t)) [
        | inl panic ↦ rw (panic, visit_peers) (ground arith)
        | inr (u, e) ↦ rw (e, visit_peers) (ground (arith, is_some-visit_peers peers u))
      ]

  is_some-visit_model :
      (per_model : Assoc (Assoc PeerModelEntry)) (m : Model) (a : Assembly)
      → is_some (visit_model locate addrs known per_model dial_errors m a)
        ≡ not (any is_uncut (keys (peers_of per_model m)))
  unfolding visit_model
  is_some-visit_model per_model m a = elim (Option-cases (lookup m.dht_prefix per_model)) [
    | inl unseen ↦ ground arith
    | inr ([], found) ↦ ground arith
    | inr (p ∷ peers, found) ↦
        let start : Tally = record { covered = []; issues = a.issues; server_rows = [] } in
        ground (arith, is_some-visit_peers (p ∷ peers) start)
  ]

  is_some-visit_models :
      (per_model : Assoc (Assoc PeerModelEntry)) (models : List Model) (a : Assembly)
      → is_some (visit_models locate addrs known per_model dial_errors models a)
        ≡ not (any is_uncut (reported_ids per_model models))
  unfolding visit_models
  is_some-visit_models per_model [] a = refl
  is_some-visit_models per_model (m ∷ models) a =
      let here = is_some-visit_model per_model m a in
      let both =
        any-append is_uncut (keys (peers_of per_model m)) (reported_ids per_model models) in
      elim (Option-cases (visit_model locate addrs known per_model dial_errors m a)) [
        | inl panic ↦ rw (panic, visit_models) (ground arith)
        | inr (b, e) ↦
            rw (e, visit_models) (ground (arith, is_some-visit_models per_model models b))
      ]

is_some-map_all {ℓ} :
    {B : Type ℓ} (f : String → Option B) (l : List String)
    → ((id : String) → is_some (f id) ≡ not (is_uncut id))
    → is_some (map_all f l) ≡ not (any is_uncut l)
unfolding map_all
is_some-map_all f [] h = refl
is_some-map_all f (id ∷ l) h =
    let here = h id in
    let rest = is_some-map_all f l h in
    elim (Option-cases (f id)) [
      | inl panic ↦ rw (panic, map_all) (ground arith)
      | inr (y, e) ↦ elim (Option-cases (map_all f l)) [
        | inl panics ↦ rw (e, map_all, panics) (ground arith)
        | inr (ys, made) ↦ rw (e, map_all, made) (ground arith)
      ]
    ]

is_some-peer_row :
    (locate : List String → Location) (addrs : Assoc Observed) (known : Assoc Location)
    (blocks : Assoc (Model × PeerModelEntry)) (capability_peers : Assoc ServerInfo) (id : String)
    → is_some (peer_row locate addrs known blocks capability_peers id) ≡ not (is_uncut id)
unfolding peer_row
is_some-peer_row locate addrs known blocks capability_peers id =
    elim (Option-cases (short_peer_id id)) [
      | inl panic ↦ rw panic (ground (arith, is_some-short_peer_id id, panic))
      | inr (short, e) ↦ rw e (ground (arith, is_some-short_peer_id id, e))
    ]

-- The crawl's results become a snapshot exactly when each peer that has a record under a listed model,
-- and each peer that is not excluded and has a capability record or is connected by the kad protocol,
-- has an id of at most ten bytes or one that can be cut six bytes before its end; else the task panics.
pub is_some-build_snapshot :
    (into_values : Assoc Contributor → List Contributor) (locate : List String → Location)
    (now : DateTime) (bootstrap_states : List String) (models : List Model)
    (per_model : Assoc (Assoc PeerModelEntry)) (capability_peers : Assoc ServerInfo)
    (addrs : Assoc Observed) (dial_errors : Assoc String) (exclude : List String)
    → is_some (
        build_snapshot into_values locate now bootstrap_states models per_model capability_peers
          addrs dial_errors exclude)
      ≡ not
          (any is_uncut (reported_ids per_model models ++ other_ids capability_peers addrs exclude))
unfolding build_snapshot
is_some-build_snapshot into_values locate now bootstrap_states models per_model capability_peers
      addrs dial_errors exclude =
    let known = known_locations locate addrs in
    let blocks = block_of models per_model [] in
    let ids = row_ids blocks capability_peers addrs exclude in
    let visited = is_some-visit_models locate addrs known dial_errors per_model models no_reports in
    let made =
      is_some-map_all _ ids (is_some-peer_row locate addrs known blocks capability_peers) in
    let rows = any-row_ids is_uncut blocks capability_peers addrs exclude in
    let held = any-block_of is_uncut models per_model [] in
    let chosen = any-select is_uncut (λ id. not (member id exclude)) (keys blocks) in
    let among = any-weaken is_uncut (λ id. not (member id exclude)) (keys blocks) in
    let joined =
      any-append is_uncut (reported_ids per_model models)
        (other_ids capability_peers addrs exclude) in
    elim (Option-cases (visit_models locate addrs known per_model dial_errors models no_reports)) [
      | inl panic ↦ rw panic (ground arith)
      | inr (a, e) ↦
          elim (Option-cases (map_all (peer_row locate addrs known blocks capability_peers) ids)) [
            | inl panics ↦ rw (e, panics) (ground arith)
            | inr (rows', f) ↦ rw (e, f) (ground arith)
          ]
    ]
