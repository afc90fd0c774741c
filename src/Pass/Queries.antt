-- ===== src/Pass/Queries.antt =====
-- The queries of a round as a log, without the bootstrap set that the code keeps.
use kwaai_net_map.Prelude.{
  String, Bool, true, false, is_some, Option, none, some, List, [], ◌∷◌, ◌≡◌, refl, ap, sym, ◌∙◌,
  if◌then◌else◌, Option-cases, Bool-cases, inl, inr,
}
use kwaai_net_map.Bootstrap.{BootstrapSet, record_answer}
use kwaai_net_map.Bootstrap.Laws.{replay}
use kwaai_net_map.Dht.Wire.{Bytes}
use kwaai_net_map.Crawl.{FindResult, Network, rpc_find, rpc_find_inner, ask_each}
use kwaai_net_map.Crawl.Answers.{ask_each_silent, ask_each_enough, ask_each_more}

-- A log has, for each query in turn, the address that was asked and whether it answered.
abbrev pub Log : Type 0
Log = List (String × Bool)

module _ {World PeerId : Type 0} (net : Network World PeerId) (keys : List Bytes) where
  -- Every address is asked.
  unfoldable pub ask_all : List String → World → Log × World
  ask_all [] w = ([], w)
  ask_all (addr ∷ addrs) w =
      let (response, w') = rpc_find_inner net addr keys w in
      let (log, w'') = ask_all addrs w' in ((addr, is_some response) ∷ log, w'')

  -- The addresses are asked up to the first whose answer is enough.
  unfoldable pub ask_until {ℓ} :
      {S : Type ℓ}
      → (List FindResult → S → S)
      → (S → Bool)
      → List String
      → S
      → World
      → S × Log × World
  ask_until step enough [] s w = (s, [], w)
  ask_until step enough (addr ∷ addrs) s w =
      let (response, w') = rpc_find_inner net addr keys w in
      elim response [
        | none ↦
            let (s', log, w'') = ask_until step enough addrs s w' in (s', (addr, false) ∷ log, w'')
        | some results ↦
            if enough (step results s)
            then (step results s, (addr, true) ∷ [], w')
            else let (s', log, w'') = ask_until step enough addrs (step results s) w' in
              (s', (addr, true) ∷ log, w'')
      ]

  module _ {ℓ} {S : Type ℓ} (step : List FindResult → S → S) (enough : S → Bool) (addr : String)
      (addrs : List String) (s : S) (w : World) where
    after_query : World
    after_query = (rpc_find_inner net addr keys w).1

    ask_until_silent :
        (rpc_find_inner net addr keys w).0 ≡ none
        → ask_until step enough (addr ∷ addrs) s w ≡ (
          (ask_until step enough addrs s after_query).0,
          (addr, false) ∷ (ask_until step enough addrs s after_query).1,
          (ask_until step enough addrs s after_query).2,
        )
    unfolding ask_until after_query
    ask_until_silent e = rw (e, ask_until) refl

    module _ (results : List FindResult)
        (e : (rpc_find_inner net addr keys w).0 ≡ some results) where
      ask_until_enough :
          enough (step results s) ≡ true
          → ask_until step enough (addr ∷ addrs) s w
            ≡ (step results s, (addr, true) ∷ [], after_query)
      unfolding ask_until after_query
      ask_until_enough t = rw (e, t, ask_until) refl

      ask_until_more :
          enough (step results s) ≡ false
          → ask_until step enough (addr ∷ addrs) s w ≡ (
            (ask_until step enough addrs (step results s) after_query).0,
            (addr, true) ∷ (ask_until step enough addrs (step results s) after_query).1,
            (ask_until step enough addrs (step results s) after_query).2,
          )
      unfolding ask_until after_query
      ask_until_more t = rw (e, t, ask_until) refl

  -- The mark that a query leaves.
  set-rpc_find :
      (addr : String) (set : BootstrapSet) (w : World) (o : Option (List FindResult))
      → (rpc_find_inner net addr keys w).0 ≡ o
      → (rpc_find net addr keys set w).1 ≡ record_answer addr (is_some o) set
  unfolding rpc_find
  set-rpc_find addr set w o e =
      ap (λ (r : Option (List FindResult)). record_answer addr (is_some r) set) e

  pub ask_each-ask_until {ℓ} :
      {S : Type ℓ} (step : List FindResult → S → S) (enough : S → Bool) (addrs : List String)
      (s : S) (set : BootstrapSet) (w : World)
      → ask_each net keys step enough addrs s set w ≡ (
        (ask_until step enough addrs s w).0,
        replay set (ask_until step enough addrs s w).1,
        (ask_until step enough addrs s w).2,
      )
  ask_each-ask_until step enough [] s set w = unfold ask_each ask_until replay in refl
  ask_each-ask_until {S = S} step enough (addr ∷ addrs) s set w =
      elim (Option-cases (rpc_find_inner net addr keys w).0) [
        | inl silent ↦
            ask_each_silent net keys step enough addr addrs s set w (unfold rpc_find in silent)
            ∙ ap
                (λ (b : BootstrapSet).
                  ask_each net keys step enough addrs s b (rpc_find net addr keys set w).2)
                (set-rpc_find addr set w none silent)
            ∙ ask_each-ask_until step enough addrs s (record_answer addr false set) _
            ∙ (unfold rpc_find after_query replay in
                ap (λ (r : S × Log × World). (r.0, replay set r.1, r.2))
                  (sym (ask_until_silent step enough addr addrs s w silent)))
        | inr (results, answered) ↦ elim (Bool-cases (enough (step results s))) [
          | inl done ↦
              ask_each_enough net keys step enough addr addrs s set w results
                (unfold rpc_find in answered) done
              ∙ ap (λ (b : BootstrapSet). (step results s, b, (rpc_find net addr keys set w).2))
                  (set-rpc_find addr set w (some results) answered)
              ∙ (unfold rpc_find after_query replay in
                  ap (λ (r : S × Log × World). (r.0, replay set r.1, r.2))
                    (sym (ask_until_enough step enough addr addrs s w results answered done)))
          | inr more ↦
              ask_each_more net keys step enough addr addrs s set w results
                (unfold rpc_find in answered) more
              ∙ ap
                  (λ (b : BootstrapSet).
                    ask_each net keys step enough addrs (step results s) b
                      (rpc_find net addr keys set w).2)
                  (set-rpc_find addr set w (some results) answered)
              ∙ ask_each-ask_until step enough addrs (step results s) (record_answer addr true set)
                  _
              ∙ (unfold rpc_find after_query replay in
                  ap (λ (r : S × Log × World). (r.0, replay set r.1, r.2))
                    (sym (ask_until_more step enough addr addrs s w results answered more)))
        ]
      ]

  -- If no answer is ever enough, all are asked.
  ask_until-ask_all {ℓ} :
      {S : Type ℓ} (step : List FindResult → S → S) (addrs : List String) (s : S) (w : World)
      → ((ask_until step (λ o. false) addrs s w).1 ≡ (ask_all addrs w).0)
        × ((ask_until step (λ o. false) addrs s w).2 ≡ (ask_all addrs w).1)
  unfolding ask_all after_query
  ask_until-ask_all step [] s w = unfold ask_until in (refl, refl)
  ask_until-ask_all step (addr ∷ addrs) s w =
      elim (Option-cases (rpc_find_inner net addr keys w).0) [
        | inl silent ↦
            let (log, world) = ask_until-ask_all step addrs s (rpc_find_inner net addr keys w).1 in
            rw (ask_until_silent step (λ o. false) addr addrs s w silent, silent)
              (ap (◌∷◌ (addr, false)) log, world)
        | inr (results, answered) ↦
            let (log, world) =
              ask_until-ask_all step addrs (step results s) (rpc_find_inner net addr keys w).1 in
            rw (ask_until_more step (λ o. false) addr addrs s w results answered refl, answered)
              (ap (◌∷◌ (addr, true)) log, world)
      ]

  pub ask_each-ask_all {ℓ} :
      {S : Type ℓ} (step : List FindResult → S → S) (addrs : List String) (s : S)
      (set : BootstrapSet) (w : World)
      → ((ask_each net keys step (λ o. false) addrs s set w).1 ≡ replay set (ask_all addrs w).0)
        × ((ask_each net keys step (λ o. false) addrs s set w).2 ≡ (ask_all addrs w).1)
  ask_each-ask_all step addrs s set w =
      let (log, world) = ask_until-ask_all step addrs s w in
      rw (ask_each-ask_until step (λ o. false) addrs s set w) (ap (replay set) log, world)
