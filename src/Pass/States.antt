-- ===== src/Pass/States.antt =====
-- The bootstrap states that a pass publishes.
use kwaai_net_map.Prelude.{
  String, Option, none, some, List, map, ◌≡◌, refl, ap, sym, ◌∙◌, ℕ, arith, map_option, any, ◌&&◌,
  Bool-cases, inl, inr,
}
use kwaai_net_map.Prelude.F64.{F64}
use kwaai_net_map.Snapshot.{Snapshot}
use kwaai_net_map.Bootstrap.{BootstrapSet, states, state_of}
use kwaai_net_map.Bootstrap.Laws.{IsDistinct, replay, answered_in, dialed_set, states-replay}
use kwaai_net_map.Multiaddr.{IpAddr}
use kwaai_net_map.GeoIp.{GeoIp}
use kwaai_net_map.Assemble.Peers.{bootstrap_states-build_snapshot}
use kwaai_net_map.Pass.{Environment, crawl_interval, query_all, crawl_dialed, crawl_once}
use kwaai_net_map.Pass.Logs.{
  pass_log, query_all-reached_log, has_dialable-dialed_set, replay_nil, pass_log-eq-reached_log,
  pass_log_nil,
}
use kwaai_net_map.Text.{contains}

abbrev stamp : F64 → Snapshot → Snapshot
stamp elapsed s = record s { update_period = crawl_interval; update_duration = elapsed }

states-stamp :
    (elapsed : F64) (built : Option Snapshot) (s : Snapshot) (l : List String)
    → ((t : Snapshot) → built ≡ some t → t.bootstrap_states ≡ l)
    → map_option (stamp elapsed) built ≡ some s
    → s.bootstrap_states ≡ l
states-stamp elapsed none s l h e = absurd (ground arith)
states-stamp elapsed (some t) s l h e = ground (arith, h t refl)

module _ {World PeerId : Type 0} (parse_ip : String → Option IpAddr) (decimal : ℕ → String)
    (ours : String) (env : Environment World PeerId) (configured : List String) (geo : GeoIp)
    (s : Snapshot) where
  states-crawl_dialed :
      (set : BootstrapSet)
      → (crawl_dialed parse_ip decimal ours env configured set geo).0 ≡ some s
      → s.bootstrap_states ≡ states (query_all parse_ip decimal ours env set).3
  unfolding crawl_dialed
  states-crawl_dialed set e =
      states-stamp env.elapsed _ s _
        (λ t built. bootstrap_states-build_snapshot _ _ _ _ _ _ _ _ _ _ t built) e

  -- If a pass ends without a panic and the configured addresses are pairwise different, then it
  -- publishes a bootstrap as "online" exactly when it answered one of the queries of the pass, in the
  -- order of the configuration. These queries are: none if no bootstrap has a peer id and was reached
  -- by its first dial; else those for the registry, one bootstrap after the other up to the first that
  -- names a model; then for each model those for its blocks, and then those for each capability, to
  -- every bootstrap in turn that was reached and has failed no query so far.
  pub crawl_once_states :
      (crawl_once parse_ip decimal ours env configured geo).0 ≡ some s
      → IsDistinct configured
      → s.bootstrap_states
        ≡ map (λ a. state_of (answered_in (pass_log decimal env configured) a)) configured
  unfolding crawl_once
  crawl_once_states e distinct =
      let start = dialed_set env.connects configured in
      let dialed = has_dialable-dialed_set env.connects configured in
      let by_log =
        states-replay env.connects configured (pass_log decimal env configured) distinct in
      elim (Bool-cases (any (λ a. contains a "/p2p/" && env.connects a) configured)) [
        | inl reached ↦
            let shown : s.bootstrap_states ≡ states (query_all parse_ip decimal ours env start).3 =
              states-crawl_dialed start (ground (arith, e, dialed, reached)) in
            let logged = query_all-reached_log decimal env configured distinct parse_ip ours in
            let whole = pass_log-eq-reached_log decimal env configured reached in
            shown ∙ ap states (logged ∙ ap (replay start) (sym whole)) ∙ by_log
        | inr unreached ↦
            let shown : s.bootstrap_states ≡ states start = ground (arith, e, dialed, unreached) in
            let nothing = pass_log_nil decimal env configured unreached in
            shown
            ∙ ap states (replay_nil decimal env configured start ∙ ap (replay start) (sym nothing))
            ∙ by_log
      ]
