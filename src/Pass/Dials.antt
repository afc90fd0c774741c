-- ===== src/Pass/Dials.antt =====
-- Which dials of a pass are reported.
use kwaai_net_map.Prelude.{
  String, Bool, not, ◌&&◌, ◌||◌, Option, none, some, List, [], ◌∷◌, ◌++◌, ◌≡◌, ◌≢◌, ◌↔◌, refl, ◌∙◌,
  ◌==◌, eq_iff, if◌then◌else◌, arith, lookup, Assoc, keys, any, unwrap_or,
}
use kwaai_net_map.Prelude.Sorting.{member, member-append, member-text_set, member-select}
use kwaai_net_map.Text.{append}
use kwaai_net_map.Snapshot.{ServerInfo}
use kwaai_net_map.Assemble.{PeerModelEntry}
use kwaai_net_map.Probe.{Outcome, connected, failed, timed_out}
use kwaai_net_map.Pass.{dial_error, model_peers, discovered, connect_discovered_peers}

-- The dial did not connect, and the text says why.
abbrev pub IsFailure : Outcome → String → Type 0
IsFailure connected e = ⊥
IsFailure (failed why) e = why ≡ e
IsFailure timed_out e = e ≡ "dial timed out after 15s"

dial_error_iff : (o : Outcome) (e : String) → (dial_error o ≡ some e) ↔ IsFailure o e
dial_error_iff connected e = ground arith
dial_error_iff (failed why) e = ground arith
dial_error_iff timed_out e = ground arith

lookup-connect_discovered_peers :
    (outcome : String → Outcome) (ours : String) (peer_ids : List String) (id : String)
    → lookup id (connect_discovered_peers outcome ours peer_ids) ≡ (
        if member id peer_ids && not (id == ours)
        then dial_error (outcome (append "/p2p/" id))
        else none)
unfolding connect_discovered_peers lookup
lookup-connect_discovered_peers outcome ours [] id = refl
lookup-connect_discovered_peers outcome ours (j ∷ peer_ids) id = ground (
  arith,
  lookup-connect_discovered_peers outcome ours peer_ids id,
  eq_iff j id,
  eq_iff id ours,
  eq_iff j ours,
)

member-model_peers :
    (id : String) (per_model : Assoc (Assoc PeerModelEntry))
    → member id (model_peers per_model) ≡ any (λ e. member id (keys e.1)) per_model
unfolding model_peers
member-model_peers id [] = refl
member-model_peers id ((dht_prefix, peers) ∷ per_model) =
    member-append id (keys peers) (model_peers per_model)
    ∙ ground (arith, member-model_peers id per_model)

module _ (per_model : Assoc (Assoc PeerModelEntry)) (capable : Assoc ServerInfo)
    (kad_known : Option (List String)) (exclude : List String) where
  -- Some model has a record of the peer, a registry names it, or it is known over kad.
  abbrev pub is_found : String → Bool
  is_found id =
      any (λ e. member id (keys e.1)) per_model
      || (member id (keys capable) || member id (unwrap_or kad_known []))

  member-discovered :
      (id : String)
      → member id (discovered per_model capable kad_known exclude)
        ≡ (not (member id exclude) && is_found id)
  unfolding discovered
  member-discovered id =
      member-text_set id _
      ∙ member-select (λ j. not (member j exclude)) id _
      ∙ ground (
        arith,
        member-append id (model_peers per_model) (keys capable ++ unwrap_or kad_known []),
        member-append id (keys capable) (unwrap_or kad_known []),
        member-model_peers id per_model,
      )

  -- A pass reports a failed dial of a peer with an error exactly when the peer is not among the
  -- excluded ones, a record under some model, a capability registry or kad names it, it is not the
  -- observer itself, and the dial of its bare id failed with that error, or else timed out, where the
  -- error says so.
  pub connect_discovered_peers_lem :
      (outcome : String → Outcome) (ours id error : String)
      → (lookup id
            (connect_discovered_peers outcome ours (discovered per_model capable kad_known exclude))
          ≡ some error)
        ↔ ((member id exclude ≡ Bool.false)
            × (is_found id ≡ Bool.true)
            × (id ≢ ours)
            × IsFailure (outcome (append "/p2p/" id)) error)
  connect_discovered_peers_lem outcome ours id error = ground (
    arith,
    lookup-connect_discovered_peers outcome ours (discovered per_model capable kad_known exclude)
        id,
    member-discovered id,
    eq_iff id ours,
    dial_error_iff (outcome (append "/p2p/" id)) error,
  )
