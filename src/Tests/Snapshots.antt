-- ===== src/Tests/Snapshots.antt =====
-- Snapshots built from small crawls.
use mathlib.Core.List.{Perm}
use mathlib.Core.List.Perm
use kwaai_net_map.Prelude.{
  ℕ, ◌+◌, ◌-◌, ◌<◌, ◌≤◌, String, true, false, not, ◌&&◌, ◌||◌, Option, none, some, List, [], ◌∷◌,
  ◌++◌, map, ◌≡◌, refl, ◌↔◌, any, is_some, length, All, arith, Assoc, keys, values, lookup,
  if◌then◌else◌,
}
use kwaai_net_map.Prelude.Int.{pos}
use kwaai_net_map.Prelude.Sorting.{member, text_set, IsSorted}
use kwaai_net_map.Snapshot.{
  ServerInfo, default_server_info, Location, unknown, default_peer_ip_info, ServerRow, Contributor,
  Snapshot, default_snapshot,
}
use kwaai_net_map.Snapshot.ShortId.{short_peer_id}
use kwaai_net_map.Assemble.{Model, PeerModelEntry, map_all}
use kwaai_net_map.Assemble.Build.{
  Tally, Assembly, visit_peers, visit_models, report_of, no_reports, build_snapshot,
}
use kwaai_net_map.Assemble.Rows.{kad_peers}
use kwaai_net_map.Assemble.Ranking.{top_contributors, best_of, faster, candidate}
use kwaai_net_map.Assemble.Health.{healthy_iff, is_covered}
use kwaai_net_map.Assemble.Issues.{issues_lem, claims, peers_of}
use kwaai_net_map.Assemble.Reports.{IsJudged, HasRange, model_reports-IsJudged}
use kwaai_net_map.Assemble.Peers.{has_row_iff}
use kwaai_net_map.Assemble.Ids.{reported_ids, other_ids}
use kwaai_net_map.Assemble.Total.{is_uncut, is_some-build_snapshot}
use kwaai_net_map.Assemble.Panic.{build_snapshot-panics}
use kwaai_net_map.Prelude.{◌⊎◌}
use kwaai_net_map.Assemble.Best.{IsBestOf, all_candidates}
use kwaai_net_map.Assemble.Contributors.{top_contributors_lem, blocks-candidate}

abbrev nowhere : List String → Location
nowhere addrs = unknown

abbrev online_server : ℕ → ℕ → ServerInfo
online_server start end = record default_server_info {
  state = "online";
  throughput = 4621819117588971520;
  start_block = pos start;
  end_block = pos end;
}

abbrev bloom : Model
bloom = record { dht_prefix = "bloom"; repository = "https://hf.co/big/bloom"; num_blocks = pos 3 }

-- One peer holds the blocks 0 and 1, the other block 2.
abbrev two_peers : Assoc PeerModelEntry
two_peers =
    ("QmA", record { blocks = 0 ∷ 1 ∷ []; info = online_server 0 2 })
    ∷ ("QmB", record { blocks = 2 ∷ []; info = online_server 2 3 })
    ∷ []

abbrev one_model : Assoc (Assoc PeerModelEntry)
one_model = ("bloom", two_peers) ∷ []

abbrev failed_dials : Assoc String
failed_dials = ("QmB", "timed out") ∷ []

abbrev some_or {ℓ} : {A : Type ℓ} → A → Option A → A
some_or a none = a
some_or a (some b) = b

abbrev start : Tally
start = record { covered = []; issues = []; server_rows = [] }

abbrev gathered : Tally
gathered = some_or start (visit_peers nowhere [] [] failed_dials two_peers start)

gathered_lem : visit_peers nowhere [] [] failed_dials two_peers start ≡ some gathered
unfolding visit_peers short_peer_id
gathered_lem = refl

healthy_iff_example :
    ((report_of bloom gathered).state ≡ "healthy")
    ↔ ((b : ℕ) → b < 3 → is_covered two_peers b ≡ true)
healthy_iff_example =
    healthy_iff nowhere [] [] failed_dials [] bloom 3 two_peers gathered refl (omega arith)
      gathered_lem

abbrev passed : Assembly
passed =
    some_or no_reports (visit_models nowhere [] [] one_model failed_dials (bloom ∷ []) no_reports)

passed_lem : visit_models nowhere [] [] one_model failed_dials (bloom ∷ []) no_reports ≡ some passed
unfolding visit_models lookup short_peer_id
passed_lem = refl

issues_lem_example : lookup "QmB" passed.issues ≡ (
    if any (λ m. claims "QmB" (peers_of one_model m)) (bloom ∷ [])
    then lookup "QmB" failed_dials
    else none)
issues_lem_example =
    issues_lem nowhere [] [] failed_dials "QmB" one_model (bloom ∷ []) passed passed_lem

abbrev built : Option Snapshot
built =
    build_snapshot values nowhere 1000 ("online" ∷ []) (bloom ∷ []) one_model [] [] failed_dials
      ("QmObserver" ∷ [])

abbrev shown : Snapshot
shown = some_or (default_snapshot 0) built

built_lem : built ≡ some shown
unfolding build_snapshot lookup short_peer_id map_all text_set
built_lem = refl

has_row_iff_example :
    (member "QmA" (map (λ r. r.peer_id) shown.peers) ≡ (
      not (member "QmA" ("QmObserver" ∷ []))
      && (any (λ m. member "QmA" (keys (peers_of one_model m))) (bloom ∷ [])
          || member "QmA" (keys {V = ServerInfo} [])
          || member "QmA" (kad_peers []))))
    × (shown.num_peers ≡ length shown.peers)
has_row_iff_example =
    has_row_iff values nowhere 1000 ("online" ∷ []) (bloom ∷ []) one_model [] [] failed_dials
      ("QmObserver" ∷ []) shown built_lem "QmA"

-- Thirteen bytes, and the seventh byte is the second of a character.
abbrev accented : String
accented = "ééééééa"

abbrev one_bad_peer : Assoc (Assoc PeerModelEntry)
one_bad_peer = ("bloom", (accented, record { blocks = 0 ∷ []; info = online_server 0 1 }) ∷ []) ∷ []

panics_test : build_snapshot values nowhere 1000 [] (bloom ∷ []) one_bad_peer [] [] [] [] ≡ none
panics_test =
    let held : any (λ m. member accented (keys (peers_of one_bad_peer m))) (bloom ∷ []) ≡ true =
      unfold lookup in refl in
    build_snapshot-panics values nowhere 1000 [] (bloom ∷ []) one_bad_peer [] [] [] [] accented
      (omega arith) refl held

is_some-build_snapshot_example :
    is_some (build_snapshot values nowhere 1000 [] (bloom ∷ []) one_bad_peer [] [] [] [])
    ≡ not (any is_uncut (reported_ids one_bad_peer (bloom ∷ []) ++ other_ids [] [] []))
is_some-build_snapshot_example =
    is_some-build_snapshot values nowhere 1000 [] (bloom ∷ []) one_bad_peer [] [] [] []

top_contributors_lem_example :
    IsBestOf (all_candidates shown.model_reports) (best_of shown.model_reports [])
    × (others : List Contributor) × Perm
        (top_contributors values shown.model_reports ++ others)
        (values (best_of shown.model_reports []))
    × (length (top_contributors values shown.model_reports) ≤ 5)
    × ((length (top_contributors values shown.model_reports) ≡ 5) ⊎ (others ≡ []))
    × IsSorted faster (top_contributors values shown.model_reports)
    × All (λ c. All (λ o. faster c o ≡ true) others) (top_contributors values shown.model_reports)
top_contributors_lem_example =
    top_contributors_lem values (λ best. Perm.refl (values best)) shown.model_reports

abbrev two_blocks : ServerRow
two_blocks = record {
  peer_id = "QmA";
  short_peer_id = "QmA";
  show_public_name = false;
  state = "online";
  peer_ip_info = default_peer_ip_info;
  span = record { peer_id = "QmA"; start = pos 0; end = pos 2; server_info = online_server 0 2 };
}

candidate_test : (candidate two_blocks).blocks ≡ pos ((2 - 0) + 1)
candidate_test = blocks-candidate two_blocks 0 2 refl refl (omega arith) (omega arith)

three_test : (candidate two_blocks).blocks ≡ pos 3
three_test = blocks-candidate two_blocks 0 2 refl refl (omega arith) (omega arith)

healthy_reports_test : All (IsJudged (bloom ∷ []) one_model) shown.model_reports
healthy_reports_test =
    let ranges : All (HasRange one_model) (bloom ∷ []) =
      unfold lookup in ((refl, omega arith), tt) in
    model_reports-IsJudged values nowhere 1000 ("online" ∷ []) (bloom ∷ []) one_model [] []
      failed_dials ("QmObserver" ∷ []) shown built_lem ranges
