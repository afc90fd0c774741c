-- ===== src/Observed/Grouping.antt =====
-- The observation of a peer, from all the connections that `list_peers` reports.
use mathlib.Core.List.{append-nil, append_assoc}
use kwaai_net_map.Prelude.{
  String, true, false, ◌||◌, Option, none, some, List, [], ◌∷◌, ◌++◌, map, ◌≡◌, refl, ap, ◌∙◌, ◌==◌,
  eq_iff, if◌then◌else◌, any, select, or_else, unwrap_or, map_option, arith, Assoc, lookup,
  Bool-cases, inl, inr,
}
use kwaai_net_map.Observed.{
  PeerInfo, Seen, Observed, conn_of, speaks_kwaai, unseen, see, see_in, see_all, classify, observe,
  observed_addrs,
}

-- The connections of one peer.
abbrev pub connections_of : String → List PeerInfo → List PeerInfo
connections_of id peers = select (λ p. p.peer_id == id) peers

-- The first agent string that some connection carries.
abbrev pub first_agent : List PeerInfo → Option String
first_agent [] = none
first_agent (p ∷ peers) = or_else p.agent_version (first_agent peers)

-- What the connections add to an entry.
gather : List PeerInfo → Seen → Seen
gather [] s = s
gather (p ∷ peers) s = gather peers (see p s)

-- The entry of the peer, the empty one where there is none.
abbrev entry_or_empty : Option Seen → Seen
entry_or_empty e = unwrap_or e unseen

lookup-see_in :
    (id : String) (p : PeerInfo) (seen : Assoc Seen)
    → lookup id (see_in p seen)
      ≡ (if p.peer_id == id then some (see p (entry_or_empty (lookup id seen))) else lookup id seen)
unfolding see_in lookup
lookup-see_in id p [] = refl
lookup-see_in id p ((j, s) ∷ seen) =
    ground (arith, lookup-see_in id p seen, eq_iff j p.peer_id, eq_iff j id, eq_iff p.peer_id id)

-- The entry after the connections, all of them of the peer.
after_all : Option Seen → List PeerInfo → Option Seen
after_all e [] = e
after_all e (p ∷ peers) = some (gather peers (see p (entry_or_empty e)))

after_all_cons :
    (e : Option Seen) (p : PeerInfo) (peers : List PeerInfo)
    → after_all (some (see p (entry_or_empty e))) peers ≡ after_all e (p ∷ peers)
unfolding after_all gather
after_all_cons e p [] = refl
after_all_cons e p (q ∷ peers) = refl

step_same :
    (id : String) (p : PeerInfo) (seen : Assoc Seen)
    → (p.peer_id == id) ≡ true
    → lookup id (see_in p seen) ≡ some (see p (entry_or_empty (lookup id seen)))
step_same id p seen same = ground (arith, lookup-see_in id p seen)

step_other :
    (id : String) (p : PeerInfo) (seen : Assoc Seen)
    → (p.peer_id == id) ≡ false
    → lookup id (see_in p seen) ≡ lookup id seen
step_other id p seen other = ground (arith, lookup-see_in id p seen)

lookup-see_all :
    (id : String) (peers : List PeerInfo) (seen : Assoc Seen)
    → lookup id (see_all seen peers) ≡ after_all (lookup id seen) (connections_of id peers)
unfolding see_all
lookup-see_all id [] seen = unfold after_all in refl
lookup-see_all id (p ∷ peers) seen = elim (Bool-cases (p.peer_id == id)) [
  | inl same ↦ rw same (
      lookup-see_all id peers (see_in p seen)
      ∙ ap (λ e. after_all e (connections_of id peers)) (step_same id p seen same)
      ∙ after_all_cons (lookup id seen) p (connections_of id peers))
  | inr other ↦ rw other (
      lookup-see_all id peers (see_in p seen)
      ∙ ap (λ e. after_all e (connections_of id peers)) (step_other id p seen other))
]

-- The entry with the connections' parts in one piece.
gather_lem :
    (peers : List PeerInfo) (s : Seen)
    → gather peers s ≡ record {
      conns = s.conns ++ map conn_of peers;
      agent_version = or_else s.agent_version (first_agent peers);
      kwaai_kad = s.kwaai_kad || any speaks_kwaai peers;
    }
unfolding gather
gather_lem [] s = ground (arith, append-nil s.conns)
gather_lem (p ∷ peers) s =
    gather_lem peers (see p s)
    ∙ ground (arith, append_assoc s.conns (conn_of p ∷ []) (map conn_of peers))

lookup-map :
    (id : String) (seen : Assoc Seen)
    → lookup id (map (λ e. (e.0, observe e.0 e.1)) seen) ≡ map_option (observe id) (lookup id seen)
unfolding lookup
lookup-map id [] = refl
lookup-map id ((j, s) ∷ seen) = ground (arith, lookup-map id seen, eq_iff j id)

-- What a peer's connections amount to; no connection, no observation.
abbrev pub seen_as : String → List PeerInfo → Option Observed
seen_as id [] = none
seen_as id (p ∷ peers) = some (record (classify id (map conn_of (p ∷ peers))) {
  agent_version = first_agent (p ∷ peers);
  kwaai_kad = any speaks_kwaai (p ∷ peers);
})

after_all-observe :
    (id : String) (peers : List PeerInfo)
    → map_option (observe id) (after_all none peers) ≡ seen_as id peers
unfolding after_all
after_all-observe id [] = refl
after_all-observe id (p ∷ peers) = ap (λ s. some (observe id s)) (gather_lem peers (see p unseen))

-- However the connections of different peers are interleaved in the report, a peer is observed
-- exactly when it has a connection in it; its verdict is that on all its own connections in their
-- order, its agent string the first that one of them carries, and it counts as speaking kad when
-- one of them lists a protocol of the kad name.
pub observed_addrs_lem :
    (peers : List PeerInfo) (id : String)
    → lookup id (observed_addrs (some peers)) ≡ seen_as id (connections_of id peers)
unfolding observed_addrs lookup
observed_addrs_lem peers id =
    lookup-map id (see_all [] peers)
    ∙ ap (map_option (observe id)) (lookup-see_all id peers [])
    ∙ after_all-observe id (connections_of id peers)
