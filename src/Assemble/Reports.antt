-- ===== src/Assemble/Reports.antt =====
-- The health of every model that a snapshot reports.
use kwaai_net_map.Prelude.{
  All-append, ℕ, zero, suc, ◌<◌, String, true, some, List, [], ◌∷◌, ◌++◌, ◌≡◌, refl, ◌↔◌, get_elem?,
  All, arith, Assoc, lookup, Option-cases, inl, inr,
}
use kwaai_net_map.Prelude.Int.{pos, pos_part}
use kwaai_net_map.Prelude.Sorting.{sort, All-sort}
use kwaai_net_map.Snapshot.{DateTime, ServerInfo, Location, Contributor, ModelReport, Snapshot}
use kwaai_net_map.Observed.{Observed}
use kwaai_net_map.Assemble.{Model, PeerModelEntry, map_all}
use kwaai_net_map.Assemble.Build.{
  Tally, Assembly, visit_peers, visit_model, visit_models, report_of, report_le, no_reports,
  known_locations, build_snapshot,
}
use kwaai_net_map.Assemble.Rows.{block_of, row_ids, peer_row}
use kwaai_net_map.Assemble.Health.{is_covered, AreBelow, healthy_iff}
use kwaai_net_map.Assemble.Issues.{peers_of}

-- The model is one of the list.
abbrev pub IsListed : List Model → Model → Type 0
IsListed models m = (i : ℕ) × (get_elem? models i ≡ some m)

-- The model's records, none under a block number outside its range.
abbrev pub HasRange : Assoc (Assoc PeerModelEntry) → Model → Type 0
HasRange per_model m =
    (m.num_blocks ≡ pos (pos_part m.num_blocks))
    × AreBelow (pos_part m.num_blocks) (peers_of per_model m)

-- The report is on a listed model, and says of its health what the records say.
abbrev pub IsJudged : List Model → Assoc (Assoc PeerModelEntry) → ModelReport → Type 0
IsJudged models per_model r =
    (m : Model) × IsListed models m
    × (r.dht_prefix ≡ m.dht_prefix)
    × ((r.state ≡ "healthy")
        ↔ ((b : ℕ) → b < pos_part m.num_blocks → is_covered (peers_of per_model m) b ≡ true))

dht_prefix-report_of : (m : Model) (t : Tally) → (report_of m t).dht_prefix ≡ m.dht_prefix
unfolding report_of
dht_prefix-report_of m t = refl

module _ (locate : List String → Location) (addrs : Assoc Observed) (known : Assoc Location)
    (per_model : Assoc (Assoc PeerModelEntry)) (dial_errors : Assoc String) where
  report_of-IsJudged :
      (listed : List Model) (m : Model) (issues : Assoc String) (t : Tally)
      → IsListed listed m
      → HasRange per_model m
      → visit_peers locate addrs known dial_errors
          (peers_of per_model m)
          (record { covered = []; issues = issues; server_rows = [] })
        ≡ some t
      → IsJudged listed per_model (report_of m t)
  report_of-IsJudged listed m issues t (i, found) range made = (
    m,
    (i, found),
    dht_prefix-report_of m t,
    healthy_iff locate addrs known dial_errors issues m (pos_part m.num_blocks)
        (peers_of per_model m) t range.0 range.1 made,
  )

  visit_model-IsJudged :
      (listed : List Model) (m : Model) (a a' : Assembly)
      → IsListed listed m
      → HasRange per_model m
      → visit_model locate addrs known per_model dial_errors m a ≡ some a'
      → All (IsJudged listed per_model) a.model_reports
      → All (IsJudged listed per_model) a'.model_reports
  unfolding visit_model
  visit_model-IsJudged listed m a a' at_m range e h =
      elim (Option-cases (lookup m.dht_prefix per_model)) [
        | inl unseen ↦ let same : a'.model_reports ≡ a.model_reports = ground arith in rw same h
        | inr ([], found) ↦
            let same : a'.model_reports ≡ a.model_reports = ground arith in rw same h
        | inr (p ∷ peers, found) ↦
            let start : Tally = record { covered = []; issues = a.issues; server_rows = [] } in
            let records : peers_of per_model m ≡ p ∷ peers = ground arith in
            elim (Option-cases (visit_peers locate addrs known dial_errors (p ∷ peers) start)) [
              | inl panic ↦ absurd (ground arith)
              | inr (t, made) ↦
                  let grown : a'.model_reports ≡ a.model_reports ++ report_of m t ∷ [] =
                    ground arith in
                  let judged =
                    report_of-IsJudged listed m a.issues t at_m range (rw records made) in
                  rw grown (
                    All-append (IsJudged listed per_model) a.model_reports (report_of m t ∷ []) h
                      (judged, tt))
            ]
      ]

  visit_models-IsJudged :
      (listed models : List Model) (a a' : Assembly)
      → All (IsListed listed) models
      → All (HasRange per_model) models
      → visit_models locate addrs known per_model dial_errors models a ≡ some a'
      → All (IsJudged listed per_model) a.model_reports
      → All (IsJudged listed per_model) a'.model_reports
  unfolding visit_models
  visit_models-IsJudged listed [] a a' all_listed ranges e h =
      let same : a'.model_reports ≡ a.model_reports = ground arith in rw same h
  visit_models-IsJudged listed (m ∷ models) a a' all_listed ranges e h =
      elim (Option-cases (visit_model locate addrs known per_model dial_errors m a)) [
        | inl panic ↦ absurd (ground arith)
        | inr (b, made) ↦
            visit_models-IsJudged listed models b a' all_listed.1 ranges.1 (ground arith)
              (visit_model-IsJudged listed m a b all_listed.0 ranges.0 made h)
      ]

IsListed-later :
    (m : Model) (models more : List Model)
    → All (IsListed models) more
    → All (IsListed (m ∷ models)) more
IsListed-later m models [] h = tt
IsListed-later m models (n ∷ more) h = ((suc h.0.0, h.0.1), IsListed-later m models more h.1)

All-IsListed : (models : List Model) → All (IsListed models) models
All-IsListed [] = tt
All-IsListed (m ∷ models) = ((zero, refl), IsListed-later m models models (All-IsListed models))

-- When a snapshot is built without a panic, if each listed model has a block count that is not
-- negative and its records carry only block numbers below that count, then each model report is on
-- a listed model and is "healthy" exactly when every block of its model is held by
-- some peer whose record says it is online.
pub model_reports-IsJudged :
    (into_values : Assoc Contributor → List Contributor) (locate : List String → Location)
    (now : DateTime) (bootstrap_states : List String) (models : List Model)
    (per_model : Assoc (Assoc PeerModelEntry)) (capability_peers : Assoc ServerInfo)
    (addrs : Assoc Observed) (dial_errors : Assoc String) (exclude : List String) (s : Snapshot)
    → build_snapshot into_values locate now bootstrap_states models per_model capability_peers addrs
        dial_errors exclude
      ≡ some s
    → All (HasRange per_model) models
    → All (IsJudged models per_model) s.model_reports
unfolding build_snapshot
model_reports-IsJudged into_values locate now bootstrap_states models per_model capability_peers
      addrs dial_errors exclude s built ranges =
    let known = known_locations locate addrs in
    let blocks = block_of models per_model [] in
    elim (Option-cases (visit_models locate addrs known per_model dial_errors models no_reports)) [
      | inl panic ↦ absurd (ground arith)
      | inr (a, visited) ↦
          elim (Option-cases (
            map_all (peer_row locate addrs known blocks capability_peers)
              (row_ids blocks capability_peers addrs exclude))) [
                | inl panic ↦ absurd (ground arith)
                | inr (rows, made) ↦
                    let sorted : s.model_reports ≡ sort report_le a.model_reports = ground arith in
                    let judged =
                      visit_models-IsJudged locate addrs known per_model dial_errors models models
                        no_reports a (All-IsListed models) ranges visited tt in
                    rw sorted
                      (All-sort report_le (IsJudged models per_model) a.model_reports judged)
              ]
    ]
