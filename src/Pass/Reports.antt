-- ===== src/Pass/Reports.antt =====
-- The model reports of a whole pass.
use mathlib.Core.Path.{subst}
use kwaai_net_map.Prelude.{
  ℕ, ◌≤◌, String, Option, none, some, map_option, unwrap_or, List, [], ◌∷◌, ◌≡◌, refl, sym, length,
  All, arith, ◌==◌, eq_iff, Assoc, lookup, Bool-cases, inl, inr,
}
use kwaai_net_map.Prelude.Int.{ℤ, pos, pos_part, neg_part}
use kwaai_net_map.Prelude.Sorting.{insert_sorted, lookup-insert_sorted}
use kwaai_net_map.Snapshot.{ModelReport, Snapshot}
use kwaai_net_map.Prelude.F64.{F64}
use kwaai_net_map.Bootstrap.{BootstrapSet, new, has_dialable, dial_all}
use kwaai_net_map.Multiaddr.{IpAddr}
use kwaai_net_map.GeoIp.{GeoIp}
use kwaai_net_map.Assemble.{Model, PeerModelEntry}
use kwaai_net_map.Assemble.Health.{AreBelow}
use kwaai_net_map.Assemble.Reports.{IsJudged, HasRange, model_reports-IsJudged}
use kwaai_net_map.Dht.Wire.{Bytes}
use kwaai_net_map.Crawl.{FindResult, discover_models, collect_model}
use kwaai_net_map.Crawl.Answers.{IsAnswer}
use kwaai_net_map.Crawl.Blocks.{AreBelow-collect_model}
use kwaai_net_map.Crawl.Models.{
  HasFewBlocks, HasBound, discover_models_lem, discover_models-HasBound,
}
use kwaai_net_map.Pass.Served.{stamp}
use kwaai_net_map.Pass.{Environment, collect_models, query_all, crawl_dialed, crawl_once}

-- Under each prefix, only blocks below the bound of the prefix.
abbrev HasBelow : (String → ℕ) → Assoc (Assoc PeerModelEntry) → Type 0
HasBelow bound per_model = (p : String) → AreBelow (bound p) (unwrap_or (lookup p per_model) [])

HasBelow-insert_sorted :
    (bound : String → ℕ) (k : String) (out : Assoc PeerModelEntry)
    (per_model : Assoc (Assoc PeerModelEntry))
    → AreBelow (bound k) out
    → HasBelow bound per_model
    → HasBelow bound (insert_sorted k out per_model)
HasBelow-insert_sorted bound k out per_model new_below below p = elim (Bool-cases (k == p)) [
  | inl same ↦
      let here : k ≡ p = (eq_iff k p).0 same in
      rw (lookup-insert_sorted k p out per_model, same)
        (subst (λ j. AreBelow (bound j) out) here new_below)
  | inr other ↦ rw (lookup-insert_sorted k p out per_model, other) (below p)
]

pos-pos_part : (n : ℤ) → neg_part n ≡ 0 → n ≡ pos (pos_part n)
pos-pos_part n h = ground arith

All-HasRange :
    (bound : String → ℕ) (per_model : Assoc (Assoc PeerModelEntry)) (models : List Model)
    → HasBelow bound per_model
    → All HasFewBlocks models
    → All (HasBound bound) models
    → All (HasRange per_model) models
All-HasRange bound per_model [] below few same = tt
All-HasRange bound per_model (m ∷ models) below few same = (
  (
    pos-pos_part m.num_blocks few.0.2,
    subst (λ n. AreBelow n (unwrap_or (lookup m.dht_prefix per_model) [])) (sym same.0)
        (below m.dht_prefix),
  ),
  All-HasRange bound per_model models below few.1 same.1,
)

All-stamp :
    (P : ModelReport → Type 0) (elapsed : F64) (built : Option Snapshot) (s : Snapshot)
    → ((t : Snapshot) → built ≡ some t → All P t.model_reports)
    → map_option (stamp elapsed) built ≡ some s
    → All P s.model_reports
All-stamp P elapsed none s h e = absurd (ground arith)
All-stamp P elapsed (some t) s h e =
    let same : s.model_reports ≡ t.model_reports = ground arith in rw same (h t refl)

module _ {World PeerId : Type 0} (parse_ip : String → Option IpAddr) (decimal : ℕ → String)
    (ours : String) (env : Environment World PeerId)
    (fits : (names : List Bytes) (results : List FindResult)
      → IsAnswer env.net names results
      → length results ≤ length names) where
  HasBelow-collect_models :
      (bound : String → ℕ) (models : List Model) (per_model : Assoc (Assoc PeerModelEntry))
      (set : BootstrapSet) (w : World)
      → All (HasBound bound) models
      → HasBelow bound per_model
      → HasBelow bound (collect_models parse_ip decimal ours env models per_model set w).0
  unfolding collect_models
  HasBelow-collect_models bound [] per_model set w same below = below
  HasBelow-collect_models bound (m ∷ models) per_model set w same below =
      let entry = unwrap_or (lookup m.dht_prefix per_model) [] in
      let start : AreBelow (pos_part m.num_blocks) entry =
        subst (λ n. AreBelow n entry) (sym same.0) (below m.dht_prefix) in
      let (out, set', w') = collect_model env.net env.msgpack decimal m entry set w in
      let ends : AreBelow (bound m.dht_prefix) out =
        subst (λ n. AreBelow n out) same.0
          (AreBelow-collect_model env.net env.msgpack decimal fits m entry set w start) in
      HasBelow-collect_models bound models (insert_sorted m.dht_prefix out per_model) set' w' same.1
        (HasBelow-insert_sorted bound m.dht_prefix out per_model ends below)

  query_all-HasRange :
      (set : BootstrapSet)
      → All
          (HasRange (query_all parse_ip decimal ours env set).1)
          (query_all parse_ip decimal ours env set).0
  unfolding query_all lookup
  query_all-HasRange set =
      let (models, set', w) = discover_models env.net env.msgpack set env.start in
      let (bound, same) = discover_models-HasBound env.net env.msgpack set env.start in
      All-HasRange bound _ models (HasBelow-collect_models bound models [] set' w same (λ p. tt))
        (discover_models_lem env.net env.msgpack set env.start).1 same

  crawl_dialed-IsJudged :
      (bootstrap_peers : List String) (set : BootstrapSet) (geo : GeoIp) (s : Snapshot)
      → (crawl_dialed parse_ip decimal ours env bootstrap_peers set geo).0 ≡ some s
      → All
          (IsJudged
            (query_all parse_ip decimal ours env set).0
            (query_all parse_ip decimal ours env set).1)
          s.model_reports
  unfolding crawl_dialed
  crawl_dialed-IsJudged bootstrap_peers set geo s e =
      All-stamp
        (IsJudged (query_all parse_ip decimal ours env set).0
          (query_all parse_ip decimal ours env set).1)
        env.elapsed _ s
        (λ t built. model_reports-IsJudged _ _ _ _ _ _ _ _ _ _ t built (query_all-HasRange set)) e

  -- If no answer of the network holds more results than the keys that were asked for, then in the
  -- snapshot of a pass each model report is on a model that the pass discovered, and is "healthy"
  -- exactly when every block of that model is held by some peer whose record, as the pass
  -- collected it, says that it is online.
  pub crawl_once-IsJudged :
      (bootstrap_peers : List String) (geo : GeoIp) (s : Snapshot)
      → (crawl_once parse_ip decimal ours env bootstrap_peers geo).0 ≡ some s
      → All
          (IsJudged
            (query_all parse_ip decimal ours env (dial_all env.connects (new bootstrap_peers))).0
            (query_all parse_ip decimal ours env (dial_all env.connects (new bootstrap_peers))).1)
          s.model_reports
  unfolding crawl_once
  crawl_once-IsJudged bootstrap_peers geo s e =
      let set = dial_all env.connects (new bootstrap_peers) in
      elim (Bool-cases (has_dialable set)) [
        | inl dialable ↦ crawl_dialed-IsJudged bootstrap_peers set geo s (ground arith)
        | inr none_dialed ↦ let empty : s.model_reports ≡ [] = ground arith in rw empty tt
      ]
