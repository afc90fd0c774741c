-- ===== src/Assemble/Issues.antt =====
-- Which peers `reachability_issues` reports.
use kwaai_net_map.Prelude.{
  String, Bool, ◌&&◌, ◌||◌, Option, none, some, List, [], ◌∷◌, ◌≡◌, ap, ◌∙◌, ◌==◌, eq_iff, inl, inr,
  if◌then◌else◌, or_else, unwrap_or, any, arith, Assoc, lookup, Option-cases,
}
use kwaai_net_map.Prelude.Sorting.{lookup-insert_sorted}
use kwaai_net_map.Snapshot.{Location}
use kwaai_net_map.Observed.{Observed}
use kwaai_net_map.Assemble.{Model, PeerModelEntry, is_online}
use kwaai_net_map.Assemble.Build.{
  Tally, Assembly, server_row, visit_peer, visit_peers, visit_model, visit_models, no_reports,
}

-- The peer says it is online in one of the records.
abbrev pub claims : String → Assoc PeerModelEntry → Bool
claims id peers = any (λ p. p.0 == id && is_online p.1.info) peers

-- The records that the crawl found for the model.
abbrev pub peers_of : Assoc (Assoc PeerModelEntry) → Model → Assoc PeerModelEntry
peers_of per_model model = unwrap_or (lookup model.dht_prefix per_model) []

abbrev pub reported : Bool → Option String → Option String → Option String
reported claimed err old = if claimed then or_else err old else old

reported_twice :
    (c d : Bool) (err old : Option String)
    → reported d err (reported c err old) ≡ reported (c || d) err old
reported_twice c d err old = ground arith

module _ (locate : List String → Location) (addrs : Assoc Observed) (known : Assoc Location)
    (dial_errors : Assoc String) (j : String) where
  issues-visit_peer :
      (id : String) (entry : PeerModelEntry) (t t' : Tally)
      → visit_peer locate addrs known dial_errors id entry t ≡ some t'
      → lookup j t'.issues
        ≡ reported (id == j && is_online entry.info) (lookup j dial_errors) (lookup j t.issues)
  unfolding visit_peer
  issues-visit_peer id entry t t' e = elim (Option-cases (server_row locate addrs known id entry)) [
    | inl panic ↦ absurd (ground arith)
    | inr (row, made) ↦ elim (Option-cases (lookup id dial_errors)) [
      | inl fine ↦ ground (arith, eq_iff id j)
      | inr (err, failed) ↦ ground (arith, eq_iff id j, lookup-insert_sorted id j err t.issues)
    ]
  ]

  issues-visit_peers :
      (peers : Assoc PeerModelEntry) (t t' : Tally)
      → visit_peers locate addrs known dial_errors peers t ≡ some t'
      → lookup j t'.issues ≡ reported (claims j peers) (lookup j dial_errors) (lookup j t.issues)
  unfolding visit_peers
  issues-visit_peers [] t t' e = ground arith
  issues-visit_peers ((id, entry) ∷ peers) t t' e =
      elim (Option-cases (visit_peer locate addrs known dial_errors id entry t)) [
        | inl panic ↦ absurd (ground arith)
        | inr (u, made) ↦
            issues-visit_peers peers u t' (ground arith)
            ∙ ap (reported (claims j peers) (lookup j dial_errors))
                (issues-visit_peer id entry t u made)
            ∙ reported_twice (id == j && is_online entry.info) (claims j peers)
                (lookup j dial_errors) (lookup j t.issues)
      ]

  issues-visit_model :
      (per_model : Assoc (Assoc PeerModelEntry)) (model : Model) (a a' : Assembly)
      → visit_model locate addrs known per_model dial_errors model a ≡ some a'
      → lookup j a'.issues
        ≡ reported (claims j (peers_of per_model model)) (lookup j dial_errors) (lookup j a.issues)
  unfolding visit_model
  issues-visit_model per_model model a a' e =
      elim (Option-cases (lookup model.dht_prefix per_model)) [
        | inl unseen ↦ ground arith
        | inr ([], found) ↦ ground arith
        | inr (p ∷ peers, found) ↦
            let start : Tally = record { covered = []; issues = a.issues; server_rows = [] } in
            elim (Option-cases (visit_peers locate addrs known dial_errors (p ∷ peers) start)) [
              | inl panic ↦ absurd (ground arith)
              | inr (t, made) ↦ ground (arith, issues-visit_peers (p ∷ peers) start t made)
            ]
      ]

  issues-visit_models :
      (per_model : Assoc (Assoc PeerModelEntry)) (models : List Model) (a a' : Assembly)
      → visit_models locate addrs known per_model dial_errors models a ≡ some a'
      → lookup j a'.issues
        ≡ reported
            (any (λ m. claims j (peers_of per_model m)) models)
            (lookup j dial_errors)
            (lookup j a.issues)
  unfolding visit_models
  issues-visit_models per_model [] a a' e = ground arith
  issues-visit_models per_model (m ∷ models) a a' e =
      elim (Option-cases (visit_model locate addrs known per_model dial_errors m a)) [
        | inl panic ↦ absurd (ground arith)
        | inr (b, made) ↦
            issues-visit_models per_model models b a' (ground arith)
            ∙ ap
                (reported (any (λ n. claims j (peers_of per_model n)) models)
                  (lookup j dial_errors))
                (issues-visit_model per_model m a b made)
            ∙ reported_twice _ _ (lookup j dial_errors) (lookup j a.issues)
      ]

  -- When the pass over the models ends without a panic, a peer has an issue exactly when a dial to
  -- it failed and one of its records under a listed model says it is online; the issue then is the
  -- error of that dial. That holds however many models the peer serves.
  pub issues_lem :
      (per_model : Assoc (Assoc PeerModelEntry)) (models : List Model) (a : Assembly)
      → visit_models locate addrs known per_model dial_errors models no_reports ≡ some a
      → lookup j a.issues
        ≡ (if any (λ m. claims j (peers_of per_model m)) models then lookup j dial_errors else none)
  unfolding lookup
  issues_lem per_model models a e =
      ground (arith, issues-visit_models per_model models no_reports a e)
