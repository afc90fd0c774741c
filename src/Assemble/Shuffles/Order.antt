-- ===== src/Assemble/Shuffles/Order.antt =====
-- The order in which a hash map yields a model's peers does not show in the model's report.
use kwaai_net_map.Prelude.{
  String, false, Option, none, some, map_option, List, [], ◌∷◌, ◌≡◌, refl, ◌∙◌, ◌==◌, arith, Assoc,
  Option-cases, inl, inr,
}
use kwaai_net_map.Snapshot.{ServerRow, Location}
use kwaai_net_map.Snapshot.ShortId.{short_peer_id}
use kwaai_net_map.Observed.{Observed}
use kwaai_net_map.Assemble.{Model, PeerModelEntry}
use kwaai_net_map.Assemble.Build.{Tally, server_row, visit_peer, visit_peers}
use kwaai_net_map.Prelude.Shuffle.{Shuffle, same, keep, swap, next}
use kwaai_net_map.Assemble.Shuffles.Same.{
  IsSame, IsSameOption, IsSameOption-trans, IsSame-refl, left, IsSameOption-left,
}
use kwaai_net_map.Assemble.Shuffles.Rounds.{after, IsSame-after, IsSame-swap}

module _ (locate : List String → Location) (addrs : Assoc Observed) (known : Assoc Location)
    (dial_errors : Assoc String) where
  visit_peer_lem :
      (id : String) (entry : PeerModelEntry) (t : Tally)
      → visit_peer locate addrs known dial_errors id entry t
        ≡ map_option
            (λ row. after dial_errors id entry row t)
            (server_row locate addrs known id entry)
  unfolding visit_peer
  visit_peer_lem id entry t = elim (Option-cases (server_row locate addrs known id entry)) [
    | inl panic ↦ rw panic refl
    | inr (row, e) ↦ rw e refl
  ]

  peer_id-server_row :
      (id : String) (entry : PeerModelEntry) (row : ServerRow)
      → server_row locate addrs known id entry ≡ some row
      → row.peer_id ≡ id
  unfolding server_row
  peer_id-server_row id entry row e = elim (Option-cases (short_peer_id id)) [
    | inl panic ↦ absurd (ground arith)
    | inr (short, cut) ↦ ground arith
  ]

  abbrev visits : Assoc PeerModelEntry → Tally → Option Tally
  visits = visit_peers locate addrs known dial_errors

  visits_row :
      (id : String) (entry : PeerModelEntry) (peers : Assoc PeerModelEntry) (row : ServerRow)
      (t : Tally)
      → server_row locate addrs known id entry ≡ some row
      → visits ((id, entry) ∷ peers) t ≡ visits peers (after dial_errors id entry row t)
  unfolding visit_peers
  visits_row id entry peers row t e =
      let made : visit_peer locate addrs known dial_errors id entry t
          ≡ some (after dial_errors id entry row t) =
        visit_peer_lem id entry t ∙ rw e refl in
      rw (made, visit_peers) refl

  visits_panic :
      (id : String) (entry : PeerModelEntry) (peers : Assoc PeerModelEntry) (t : Tally)
      → server_row locate addrs known id entry ≡ none
      → visits ((id, entry) ∷ peers) t ≡ none
  unfolding visit_peers
  visits_panic id entry peers t e =
      let panic : visit_peer locate addrs known dial_errors id entry t ≡ none =
        visit_peer_lem id entry t ∙ rw e refl in
      rw (panic, visit_peers) refl

  IsSame-visits :
      (peers : Assoc PeerModelEntry) (t u : Tally)
      → IsSame t u
      → IsSameOption (visits peers t) (visits peers u)
  unfolding visit_peers
  IsSame-visits [] t u h = h
  IsSame-visits ((id, entry) ∷ peers) t u h =
      elim (Option-cases (server_row locate addrs known id entry)) [
        | inl panic ↦
            rw (visits_panic id entry peers t panic, visits_panic id entry peers u panic) tt
        | inr (row, e) ↦
            rw (visits_row id entry peers row t e, visits_row id entry peers row u e)
              (IsSame-visits peers (after dial_errors id entry row t)
                (after dial_errors id entry row u) (IsSame-after dial_errors id entry row t u h))
      ]

  visits-swap :
      (j k : String) (e f : PeerModelEntry) (peers : Assoc PeerModelEntry) (t : Tally)
      → (j == k) ≡ false
      → IsSameOption (visits ((j, e) ∷ (k, f) ∷ peers) t) (visits ((k, f) ∷ (j, e) ∷ peers) t)
  visits-swap j k e f peers t ne = elim (Option-cases (server_row locate addrs known j e)) [
    | inl panic_j ↦ elim (Option-cases (server_row locate addrs known k f)) [
      | inl panic_k ↦
          rw
            (
              visits_panic j e ((k, f) ∷ peers) t panic_j,
              visits_panic k f ((j, e) ∷ peers) t panic_k,
            )
            tt
      | inr (s, at_k) ↦
          rw
            (
              visits_panic j e ((k, f) ∷ peers) t panic_j,
              visits_row k f ((j, e) ∷ peers) s t at_k,
              visits_panic j e peers (after dial_errors k f s t) panic_j,
            )
            tt
    ]
    | inr (r, at_j) ↦ elim (Option-cases (server_row locate addrs known k f)) [
      | inl panic_k ↦
          rw
            (
              visits_row j e ((k, f) ∷ peers) r t at_j,
              visits_panic k f peers (after dial_errors j e r t) panic_k,
              visits_panic k f ((j, e) ∷ peers) t panic_k,
            )
            tt
      | inr (s, at_k) ↦
          let r_id = peer_id-server_row j e r at_j in
          let s_id = peer_id-server_row k f s at_k in
          rw
            (
              visits_row j e ((k, f) ∷ peers) r t at_j,
              visits_row k f peers s (after dial_errors j e r t) at_k,
              visits_row k f ((j, e) ∷ peers) s t at_k,
              visits_row j e peers r (after dial_errors k f s t) at_j,
            )
            (IsSame-visits peers (after dial_errors k f s (after dial_errors j e r t))
              (after dial_errors j e r (after dial_errors k f s t))
              (IsSame-swap dial_errors j k e f r s t ne (rw (r_id, s_id) ne)))
    ]
  ]

  IsSameOption-visits :
      (peers : Assoc PeerModelEntry) (t : Tally) → IsSameOption (visits peers t) (visits peers t)
  IsSameOption-visits peers t = IsSame-visits peers t t (IsSame-refl t)

  visits-Shuffle :
      (l m : Assoc PeerModelEntry) (t : Tally)
      → Shuffle l m
      → IsSameOption (visits l t) (visits m t)
  visits-Shuffle l m t same = IsSameOption-visits l t
  visits-Shuffle l m t (keep {p} {l = l'} {m = m'} s) =
      elim (Option-cases (server_row locate addrs known p.0 p.1)) [
        | inl panic ↦ rw (visits_panic p.0 p.1 l' t panic, visits_panic p.0 p.1 m' t panic) tt
        | inr (row, e) ↦
            rw (visits_row p.0 p.1 l' row t e, visits_row p.0 p.1 m' row t e)
              (visits-Shuffle l' m' (after dial_errors p.0 p.1 row t) s)
      ]
  visits-Shuffle l m t (swap {p} {q} {l = l'} ne) = visits-swap p.0 q.0 p.1 q.1 l' t ne
  visits-Shuffle l m t (next {m = k} s s') =
      IsSameOption-trans (visits l t) (visits k t) (visits m t) (visits-Shuffle l k t s)
        (visits-Shuffle k m t s')

  -- In whatever order the hash map of a model's peers yields its entries, whose ids differ, the loop
  -- over them panics or not alike, and its report, with its rows, the covered blocks and the issues
  -- are the same.
  pub visit_peers-Shuffle :
      (model : Model) (l m : Assoc PeerModelEntry) (t : Tally)
      → Shuffle l m
      → map_option (left model) (visit_peers locate addrs known dial_errors l t)
        ≡ map_option (left model) (visit_peers locate addrs known dial_errors m t)
  visit_peers-Shuffle model l m t s =
      IsSameOption-left model (visits l t) (visits m t) (visits-Shuffle l m t s)
