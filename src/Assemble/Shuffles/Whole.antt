-- ===== src/Assemble/Shuffles/Whole.antt =====
-- The order in which the hash maps of a crawl yield their entries does not show in the snapshot:
-- `build_snapshot` of map-server/src/crawler.rs.
use mathlib.Core.Path.{ap₂, fun_ext}
use kwaai_net_map.Prelude.{
  ℕ, ◌+◌, String, Option, none, some, List, [], ◌∷◌, ◌++◌, ◌≡◌, refl, ap, sym, ◌∙◌, ◌>>=◌,
  map_option, if◌then◌else◌, is_empty, length, Assoc, lookup, Option-cases, Bool-cases, inl, inr,
}
use kwaai_net_map.Prelude.Shuffle.{
  Shuffle, same, keep, swap, next, SameMap, lookup-Shuffle, map-Shuffle,
}
use kwaai_net_map.Snapshot.{DateTime, ServerInfo, Location, ModelReport, Contributor, Snapshot}
use kwaai_net_map.Observed.{Observed}
use kwaai_net_map.Assemble.{Model, PeerModelEntry}
use kwaai_net_map.Assemble.Build.{
  Tally, Assembly, visit_peers, visit_model, visit_models, no_reports, known_locations,
  build_snapshot,
}
use kwaai_net_map.Assemble.Rows.{block_of, row_ids, peer_row}
use kwaai_net_map.Assemble.{map_all}
use kwaai_net_map.Assemble.Shuffles.Same.{left}
use kwaai_net_map.Assemble.Shuffles.Order.{visit_peers-Shuffle}
use kwaai_net_map.Assemble.Shuffles.Blocks.{
  ShuffleOption, ShuffleEach, block_of-SameMap, row_ids_ext,
}
use kwaai_net_map.Assemble.Shuffles.Lookups.{visit_models_ext, peer_row_ext}

is_empty-Shuffle : (l m : Assoc PeerModelEntry) → Shuffle l m → is_empty l ≡ is_empty m
is_empty-Shuffle l m same = refl
is_empty-Shuffle l m (keep s) = refl
is_empty-Shuffle l m (swap ne) = refl
is_empty-Shuffle l m (next {m = n} s s') = is_empty-Shuffle l n s ∙ is_empty-Shuffle n m s'

module _ (locate : List String → Location) (addrs : Assoc Observed) (known : Assoc Location)
    (dial_errors : Assoc String) where
  -- What a model adds, by what the loop over its peers leaves.
  abbrev add_model : Assembly → ModelReport × List ℕ × Assoc String → Assembly
  add_model a (report, covered, issues) = record {
    model_reports = a.model_reports ++ report ∷ [];
    blocks_covered = a.blocks_covered + length covered;
    issues = issues;
  }

  added :
      (a : Assembly) (model : Model) (o : Option Tally)
      → (o >>= λ t. some (add_model a (left model t)))
        ≡ map_option (add_model a) (map_option (left model) o)
  added a model none = refl
  added a model (some t) = refl

  -- One round, given the peers of the model.
  abbrev round : Model → Assembly → Option (Assoc PeerModelEntry) → Option Assembly
  round model a none = some a
  round model a (some peers) =
      if is_empty peers
      then some a
      else map_option (add_model a) (
          map_option (left model) (
            visit_peers locate addrs known dial_errors peers
              (record { covered = []; issues = a.issues; server_rows = [] })))

  visit_model_lem :
      (per_model : Assoc (Assoc PeerModelEntry)) (model : Model) (a : Assembly)
      → visit_model locate addrs known per_model dial_errors model a
        ≡ round model a (lookup model.dht_prefix per_model)
  unfolding visit_model
  visit_model_lem per_model model a = elim (Option-cases (lookup model.dht_prefix per_model)) [
    | inl unknown ↦ rw (unknown, visit_model) refl
    | inr (peers, found) ↦
        rw (found, visit_model)
          (elim (Bool-cases (is_empty peers)) [
            | inl empty ↦ rw empty refl
            | inr some_peers ↦ rw some_peers (added a model _)
          ])
  ]

  round-Shuffle :
      (model : Model) (a : Assembly) (o p : Option (Assoc PeerModelEntry))
      → ShuffleOption o p
      → round model a o ≡ round model a p
  round-Shuffle model a none none s = refl
  round-Shuffle model a none (some m) s = absurd s
  round-Shuffle model a (some l) none s = absurd s
  round-Shuffle model a (some l) (some m) s =
      rw (is_empty-Shuffle l m s, visit_peers-Shuffle locate addrs known dial_errors model l m _ s)
        refl

  visit_models-Shuffle :
      (models : List Model) (per_model others : Assoc (Assoc PeerModelEntry)) (a : Assembly)
      → ShuffleEach per_model others
      → visit_models locate addrs known per_model dial_errors models a
        ≡ visit_models locate addrs known others dial_errors models a
  unfolding visit_models
  visit_models-Shuffle [] per_model others a s = refl
  visit_models-Shuffle (model ∷ models) per_model others a s =
      ap₂ (λ (o : Option Assembly) (k : Assembly → Option Assembly). o >>= k)
        (visit_model_lem per_model model a
          ∙ round-Shuffle model a _ _ (s model.dht_prefix)
          ∙ sym (visit_model_lem others model a))
        (fun_ext (λ b. visit_models-Shuffle models per_model others b s))

module _ (into_values : Assoc Contributor → List Contributor) (locate : List String → Location)
    (now : DateTime) (bootstrap_states : List String) (models : List Model)
    (dial_errors : Assoc String) (exclude : List String) where
  pub build_snapshot-reorder :
      (per_model others : Assoc (Assoc PeerModelEntry)) (capable infos : Assoc ServerInfo)
      (addrs seen : Assoc Observed)
      → ShuffleEach per_model others
      → Shuffle capable infos
      → Shuffle addrs seen
      → build_snapshot into_values locate now bootstrap_states models per_model capable addrs
          dial_errors exclude
        ≡ build_snapshot into_values locate now bootstrap_states models others infos seen
            dial_errors exclude
  unfolding build_snapshot
  build_snapshot-reorder per_model others capable infos addrs seen s t u =
      let same_blocks = block_of-SameMap models per_model others [] [] s (λ k. refl) in
      let same_infos = lookup-Shuffle capable infos t in
      let same_seen = lookup-Shuffle addrs seen u in
      let same_known : SameMap (known_locations locate addrs) (known_locations locate seen) =
        lookup-Shuffle _ _ (map-Shuffle (λ (o : Observed). locate o.addrs) addrs seen u) in
      let visited =
        visit_models_ext locate addrs seen (known_locations locate addrs)
          (known_locations locate seen) same_seen same_known per_model dial_errors models no_reports
        ∙ visit_models-Shuffle locate seen (known_locations locate seen) dial_errors models
            per_model others no_reports s in
      let ids = row_ids_ext _ _ capable infos addrs seen exclude same_blocks same_infos u in
      let rows = fun_ext (λ id.
        peer_row_ext locate addrs seen (known_locations locate addrs) (known_locations locate seen)
          same_seen same_known _ _ capable infos id same_blocks same_infos) in
      rw (visited, ids, rows) refl

-- The snapshot less the contributors, among whom the order of a hash map decides where throughputs
-- are equal.
abbrev pub without_contributors : Snapshot → Snapshot
without_contributors s = record s { top_contributors = [] }

module _ (into_values into_values' : Assoc Contributor → List Contributor)
    (locate : List String → Location) (now : DateTime) (bootstrap_states : List String)
    (models : List Model) (dial_errors : Assoc String) (exclude : List String) where
  build_snapshot_values :
      (per_model : Assoc (Assoc PeerModelEntry)) (capable : Assoc ServerInfo)
      (addrs : Assoc Observed)
      → map_option without_contributors (
          build_snapshot into_values locate now bootstrap_states models per_model capable addrs
            dial_errors exclude)
        ≡ map_option without_contributors (
            build_snapshot into_values' locate now bootstrap_states models per_model capable addrs
              dial_errors exclude)
  unfolding build_snapshot
  build_snapshot_values per_model capable addrs =
      let known = known_locations locate addrs in
      let blocks = block_of models per_model [] in
      elim (Option-cases
        (visit_models locate addrs known per_model dial_errors models no_reports)) [
          | inl panic ↦ rw panic refl
          | inr (a, visited) ↦
              elim (Option-cases (
                map_all (peer_row locate addrs known blocks capable)
                  (row_ids blocks capable addrs exclude))) [
                    | inl panic ↦ rw (visited, panic) refl
                    | inr (peers, made) ↦ rw (visited, made) refl
                  ]
        ]

  -- The hash maps of a crawl are those of the peers of each model, of the peers with a capability
  -- record, of the observed peers, and of each contributor's best row. In whatever order they yield
  -- their entries, whose keys differ, the crawl's results become the same snapshot but for
  -- `top_contributors`, or else a panic in both.
  pub build_snapshot-Shuffle :
      (per_model others : Assoc (Assoc PeerModelEntry)) (capable infos : Assoc ServerInfo)
      (addrs seen : Assoc Observed)
      → ShuffleEach per_model others
      → Shuffle capable infos
      → Shuffle addrs seen
      → map_option without_contributors (
          build_snapshot into_values locate now bootstrap_states models per_model capable addrs
            dial_errors exclude)
        ≡ map_option without_contributors (
            build_snapshot into_values' locate now bootstrap_states models others infos seen
              dial_errors exclude)
  build_snapshot-Shuffle per_model others capable infos addrs seen s t u =
      build_snapshot_values per_model capable addrs
      ∙ ap (map_option without_contributors) (
          build_snapshot-reorder into_values' locate now bootstrap_states models dial_errors exclude
            per_model others capable infos addrs seen s t u)
