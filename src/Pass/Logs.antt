-- ===== src/Pass/Logs.antt =====
-- The queries of a pass as one log.
use kwaai_net_map.Prelude.{
  ℕ, String, Bool, true, false, not, ◌&&◌, is_empty, Option, List, [], ◌∷◌, ◌++◌, map, ◌≡◌, refl,
  ap, sym, ◌∙◌, any, select, if◌then◌else◌, arith, Assoc, values, lookup, unwrap_or,
}
use kwaai_net_map.Prelude.Int.{pos_part}
use kwaai_net_map.Text.{append, contains}
use kwaai_net_map.Snapshot.{ServerInfo}
use kwaai_net_map.Bootstrap.{BootstrapSet, live, record_answer, has_dialable, dial_all, new}
use kwaai_net_map.Bootstrap.Laws.{IsDistinct, replay, failed_in, dialed_set, live-replay}
use kwaai_net_map.Multiaddr.{IpAddr}
use kwaai_net_map.Assemble.{Model, PeerModelEntry}
use kwaai_net_map.Dht.Wire.{Bytes}
use kwaai_net_map.Crawl.{
  FindResult, id_of, register_results, add_results, note_results, ask_each, block_names,
  fallback_models, discover_models, collect_model, collect_capability,
}
use kwaai_net_map.Pass.{Environment, collect_models, collect_capabilities, query_all}
use kwaai_net_map.Pass.Queries.{Log, ask_all, ask_until, ask_each-ask_until, ask_each-ask_all}

replay-append :
    (set : BootstrapSet) (log more : Log) → replay set (log ++ more) ≡ replay (replay set log) more
unfolding replay
replay-append set [] more = refl
replay-append set ((addr, b) ∷ log) more = replay-append (record_answer addr b set) log more

pub has_dialable-dialed_set :
    (connects : String → Bool) (configured : List String)
    → has_dialable (dialed_set connects configured)
      ≡ any (λ a. contains a "/p2p/" && connects a) configured
unfolding has_dialable dial_all new
has_dialable-dialed_set connects [] = refl
has_dialable-dialed_set connects (a ∷ l) = ground (arith, has_dialable-dialed_set connects l)

module _ {World PeerId : Type 0} (decimal : ℕ → String) (env : Environment World PeerId)
    (configured : List String) where
  -- A bootstrap with a peer id that the first dial reached.
  abbrev pub reached : String → Bool
  reached a = contains a "/p2p/" && env.connects a

  -- The bootstraps that are still asked: they were reached and have failed no query so far.
  abbrev pub still_asked : Log → List String
  still_asked log =
      select (λ a. contains a "/p2p/" && env.connects a && not (failed_in log a)) configured

  -- Rounds of queries, one for each list of keys; each asks all the bootstraps still asked.
  unfoldable pub rounds : List (List Bytes) → Log → World → Log × World
  rounds [] log w = (log, w)
  rounds (keys ∷ more) log w =
      let (asked, w') = ask_all env.net keys (still_asked log) w in rounds more (log ++ asked) w'

  -- The DHT's ids of a model's blocks.
  abbrev pub block_keys : Model → List Bytes
  block_keys model = map (id_of env.net) (
      block_names (λ b. append model.dht_prefix (append "." (decimal b))) 0
        (pos_part model.num_blocks))

  abbrev models_of : Assoc Model → List Model
  models_of found = if is_empty found then fallback_models else values found

  -- The queries for the registry, up to the first bootstrap that names a model, with what they find.
  unfoldable pub registry_log : Assoc Model × Log × World
  registry_log =
      ask_until env.net (id_of env.net "_petals.models" ∷ []) (register_results env.msgpack)
        (λ f. not (is_empty f)) (still_asked []) [] env.start

  abbrev capability_names : List String
  capability_names = "_kwaai.vpk.nodes" ∷ "_kwaai.inference.nodes" ∷ []

  -- Those, and then the queries for the blocks of each model and for the two capabilities.
  unfoldable pub reached_log : Log
  reached_log =
      let (found, log, w) = registry_log in
      let (log', w') = rounds (map block_keys (models_of found)) log w in
      (rounds (map (λ n. id_of env.net n ∷ []) capability_names) log' w').0

  -- The queries of a pass. If no bootstrap was reached there are none.
  unfoldable pub pass_log : Log
  pass_log = if any reached configured then reached_log else []

  pub pass_log-eq-reached_log : any reached configured ≡ true → pass_log ≡ reached_log
  unfolding pass_log
  pass_log-eq-reached_log h = rw h refl

  pub pass_log_nil : any reached configured ≡ false → pass_log ≡ []
  unfolding pass_log
  pass_log_nil h = rw h refl

  abbrev pub start : BootstrapSet
  start = dialed_set env.connects configured

  pub replay_nil : (set : BootstrapSet) → set ≡ replay set []
  unfolding replay
  replay_nil set = refl

  module _ (distinct : IsDistinct configured) where
    pub round-ask_all {ℓ} :
        {S : Type ℓ} (keys : List Bytes) (step : List FindResult → S → S) (s : S) (log : Log)
        (w : World)
        → ((ask_each env.net keys step
              (λ o. false)
              (live (replay start log))
              s
              (replay start log)
              w).1
            ≡ replay start (log ++ (ask_all env.net keys (still_asked log) w).0))
          × ((ask_each env.net keys step
                (λ o. false)
                (live (replay start log))
                s
                (replay start log)
                w).2
              ≡ (ask_all env.net keys (still_asked log) w).1)
    round-ask_all keys step s log w =
        let asked = (ask_all env.net keys (still_asked log) w).0 in
        let (marked, world) =
          ask_each-ask_all env.net keys step (still_asked log) s (replay start log) w in
        rw (live-replay env.connects configured log distinct)
          (marked ∙ sym (replay-append start log asked), world)

    module _ (parse_ip : String → Option IpAddr) (ours : String) where
      -- The sets and worlds of the code, against the log and the world of the rounds.
      abbrev IsAfter : BootstrapSet → World → Log × World → Type 0
      IsAfter set w r = (set ≡ replay start r.0) × (w ≡ r.1)

      collect_models-IsAfter :
          (models : List Model) (per_model : Assoc (Assoc PeerModelEntry)) (set : BootstrapSet)
          (w : World) (log : Log) (v : World)
          → IsAfter set w (log, v)
          → IsAfter
              (collect_models parse_ip decimal ours env models per_model set w).1
              (collect_models parse_ip decimal ours env models per_model set w).2
              (rounds (map block_keys models) log v)
      unfolding collect_models rounds collect_model
      collect_models-IsAfter [] per_model set w log v h = h
      collect_models-IsAfter (model ∷ models) per_model set w log v (marked, same) =
          let entry = unwrap_or (lookup model.dht_prefix per_model) [] in
          let (set', w') =
            round-ask_all (block_keys model) (add_results env.msgpack 0) entry log v in
          collect_models-IsAfter models _ _ _ _ _ (rw (marked, same) (set', w'))

      collect_capabilities-IsAfter :
          (names : List String) (out : Assoc ServerInfo) (set : BootstrapSet) (w : World)
          (log : Log) (v : World)
          → IsAfter set w (log, v)
          → IsAfter
              (collect_capabilities parse_ip decimal ours env names out set w).1
              (collect_capabilities parse_ip decimal ours env names out set w).2
              (rounds (map (λ n. id_of env.net n ∷ []) names) log v)
      unfolding collect_capabilities rounds collect_capability
      collect_capabilities-IsAfter [] out set w log v h = h
      collect_capabilities-IsAfter (key ∷ names) out set w log v (marked, same) =
          let (set', w') =
            round-ask_all (id_of env.net key ∷ []) (note_results env.msgpack) out log v in
          collect_capabilities-IsAfter names _ _ _ _ _ (rw (marked, same) (set', w'))

      discover_models-registry_log :
          discover_models env.net env.msgpack start env.start
          ≡ (models_of registry_log.0, replay start registry_log.1, registry_log.2)
      unfolding discover_models registry_log
      discover_models-registry_log =
          let asked : live start ≡ still_asked [] =
            ap live (replay_nil start) ∙ live-replay env.connects configured [] distinct in
          ap (λ (r : Assoc Model × BootstrapSet × World). (models_of r.0, r.1, r.2))
            (rw asked (ask_each-ask_until env.net _ _ _ (still_asked []) [] start env.start))

      pub query_all-reached_log :
          (query_all parse_ip decimal ours env start).3 ≡ replay start reached_log
      unfolding query_all reached_log
      query_all-reached_log =
          let (found, log, w) = registry_log in
          let collected =
            collect_models-IsAfter (models_of found) [] (replay start log) w log w (refl, refl) in
          rw discover_models-registry_log
            (collect_capabilities-IsAfter capability_names [] _ _ _ _ collected).0
