-- ===== src/Crawl/Answers.antt =====
-- What a round of queries does to the state that it folds into.
use kwaai_net_map.Prelude.{
  String, Bool, true, false, none, some, List, [], ◌∷◌, ◌≡◌, ◌>>=◌, inl, inr, arith, Bool-cases,
  Option-cases,
}
use kwaai_net_map.Bootstrap.{BootstrapSet}
use kwaai_net_map.Dht.Wire.{Bytes}
use kwaai_net_map.Crawl.{
  FindResult, Network, second_piece, call_twice, rpc_find_inner, rpc_find, ask_each,
}

module _ {World PeerId : Type 0} (net : Network World PeerId) where
  -- The results are decoded from a response to a request for the keys.
  abbrev pub IsAnswer : List Bytes → List FindResult → Type 0
  IsAnswer keys results =
      (bp : PeerId) × (bytes resp : Bytes) × (w : World) × (net.encode keys ≡ some bytes)
      × ((net.call_unary_handler bp bytes w).0 ≡ some resp)
      × (net.decode resp ≡ some results)

  IsAnswer-bind :
      (keys : List Bytes) (bp : PeerId) (bytes : Bytes) (w : World) (results : List FindResult)
      → net.encode keys ≡ some bytes
      → ((net.call_unary_handler bp bytes w).0 >>= net.decode) ≡ some results
      → IsAnswer keys results
  IsAnswer-bind keys bp bytes w results encoded e =
      elim (Option-cases (net.call_unary_handler bp bytes w).0) [
        | inl lost ↦ absurd (ground arith)
        | inr (resp, answered) ↦ (bp, bytes, resp, w, encoded, answered, ground arith)
      ]

  call_twice-IsAnswer :
      (keys : List Bytes) (bp : PeerId) (bootstrap : String) (bytes : Bytes) (w : World)
      (results : List FindResult)
      → net.encode keys ≡ some bytes
      → (call_twice net bp bootstrap bytes w).0 ≡ some results
      → IsAnswer keys results
  unfolding call_twice
  call_twice-IsAnswer keys bp bootstrap bytes w results encoded e =
      elim (Option-cases (net.call_unary_handler bp bytes w).0) [
        | inl lost ↦
            IsAnswer-bind keys bp bytes
              (net.connect_peer bootstrap (net.call_unary_handler bp bytes w).1) results encoded
              (ground arith)
        | inr (resp, answered) ↦ (bp, bytes, resp, w, encoded, answered, ground arith)
      ]

  rpc_find-IsAnswer :
      (bootstrap : String) (keys : List Bytes) (w : World) (results : List FindResult)
      → (rpc_find_inner net bootstrap keys w).0 ≡ some results
      → IsAnswer keys results
  unfolding rpc_find_inner
  rpc_find-IsAnswer bootstrap keys w results e =
      elim (Option-cases (second_piece bootstrap >>= net.parse_peer)) [
        | inl unnamed ↦ absurd (ground arith)
        | inr (bp, named) ↦ elim (Option-cases (net.encode keys)) [
          | inl bad ↦ absurd (ground arith)
          | inr (bytes, encoded) ↦
              call_twice-IsAnswer keys bp bootstrap bytes w results encoded (ground arith)
        ]
      ]

  module _ {ℓ} {S : Type ℓ} (keys : List Bytes) (step : List FindResult → S → S)
      (enough : S → Bool) where
    abbrev asked : List String → S → BootstrapSet → World → S × BootstrapSet × World
    asked = ask_each net keys step enough

    pub ask_each_silent :
        (addr : String) (addrs : List String) (s : S) (set : BootstrapSet) (w : World)
        → (rpc_find net addr keys set w).0 ≡ none
        → asked (addr ∷ addrs) s set w
          ≡ asked addrs s (rpc_find net addr keys set w).1 (rpc_find net addr keys set w).2
    unfolding ask_each
    ask_each_silent addr addrs s set w e = rw (e, ask_each)

    pub ask_each_enough :
        (addr : String) (addrs : List String) (s : S) (set : BootstrapSet) (w : World)
        (results : List FindResult)
        → (rpc_find net addr keys set w).0 ≡ some results
        → enough (step results s) ≡ true
        → asked (addr ∷ addrs) s set w
          ≡ (step results s, (rpc_find net addr keys set w).1, (rpc_find net addr keys set w).2)
    unfolding ask_each
    ask_each_enough addr addrs s set w results e t = rw (e, t, ask_each)

    pub ask_each_more :
        (addr : String) (addrs : List String) (s : S) (set : BootstrapSet) (w : World)
        (results : List FindResult)
        → (rpc_find net addr keys set w).0 ≡ some results
        → enough (step results s) ≡ false
        → asked (addr ∷ addrs) s set w
          ≡ asked addrs
              (step results s)
              (rpc_find net addr keys set w).1
              (rpc_find net addr keys set w).2
    unfolding ask_each
    ask_each_more addr addrs s set w results e t = rw (e, t, ask_each)

    response-IsAnswer :
        (addr : String) (set : BootstrapSet) (w : World) (results : List FindResult)
        → (rpc_find net addr keys set w).0 ≡ some results
        → IsAnswer keys results
    unfolding rpc_find
    response-IsAnswer addr set w results e = rpc_find-IsAnswer addr keys w results e

    -- What holds of the state and is kept by each answer holds at the end.
    pub ask_each_inv {κ} :
        (P : S → Type κ)
        → ((results : List FindResult) (s : S) → IsAnswer keys results → P s → P (step results s))
        → (addrs : List String) (s : S) (set : BootstrapSet) (w : World) → P s
        → P (ask_each net keys step enough addrs s set w).0
    ask_each_inv P keep [] s set w p = unfold ask_each in p
    ask_each_inv P keep (addr ∷ addrs) s set w p =
        let (r, set', w') = rpc_find net addr keys set w in
        elim (Option-cases (rpc_find net addr keys set w).0) [
          | inl silent ↦
              rw (ask_each_silent addr addrs s set w silent) (ask_each_inv P keep addrs s set' w' p)
          | inr (results, answered) ↦
              let kept = keep results s (response-IsAnswer addr set w results answered) p in
              elim (Bool-cases (enough (step results s))) [
                | inl done ↦ rw (ask_each_enough addr addrs s set w results answered done) kept
                | inr more ↦
                    rw (ask_each_more addr addrs s set w results answered more)
                      (ask_each_inv P keep addrs (step results s) set' w' kept)
              ]
        ]
