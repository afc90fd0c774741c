-- ===== src/Crawl/Blocks.antt =====
-- The blocks that `collect_model` finds a peer under.
use kwaai_net_map.Prelude.{
  ℕ, zero, suc, ◌+◌, ◌≤◌, ◌<◌, String, Bool, false, not, ◌&&◌, ◌||◌, none, some, List, [], ◌∷◌, map,
  get_elem?, ◌≡◌, refl, ap, ◌∙◌, ◌==◌, eq_iff, eqb, is_empty, length, length-map, arith, Assoc,
  keys, lookup, Bool-cases, inl, inr,
}
use kwaai_net_map.Prelude.Int.{pos_part}
use kwaai_net_map.Prelude.Sets.{elem, elem-insert_nat, All-insert_nat}
use kwaai_net_map.Prelude.Sorting.{member}
use kwaai_net_map.Text.{append}
use kwaai_net_map.Snapshot.{ServerInfo}
use kwaai_net_map.Bootstrap.{BootstrapSet, live}
use kwaai_net_map.Assemble.{Model, PeerModelEntry}
use kwaai_net_map.Assemble.Health.{AreBelow}
use kwaai_net_map.Dht.{servers_in}
use kwaai_net_map.Dht.Wire.{Bytes, Msgpack}
use kwaai_net_map.Crawl.{
  id_of, FindResult, Network, add_server, add_servers, add_results, block_names, collect_model,
}
use kwaai_net_map.Crawl.Answers.{IsAnswer, ask_each_inv}

-- The peer is recorded under the block.
abbrev pub has_block : Assoc PeerModelEntry → String → ℕ → Bool
has_block out id b = elim (lookup id out) [ none ↦ false | some entry ↦ elem b entry.blocks ]

has_block-add_server :
    (k : ℕ) (peer_id : String) (info : ServerInfo) (out : Assoc PeerModelEntry) (id : String)
    (b : ℕ)
    → has_block (add_server k peer_id info out) id b
      ≡ ((peer_id == id && eqb b k) || has_block out id b)
unfolding add_server lookup
has_block-add_server k peer_id info [] id b = ground (arith, elem-insert_nat b k [])
has_block-add_server k peer_id info ((j, entry) ∷ out) id b = ground (
  arith,
  eq_iff j peer_id,
  eq_iff j id,
  eq_iff peer_id id,
  elem-insert_nat b k entry.blocks,
  has_block-add_server k peer_id info out id b,
)

has_block-add_servers :
    (k : ℕ) (servers : List (String × ServerInfo)) (out : Assoc PeerModelEntry) (id : String)
    (b : ℕ)
    → has_block (add_servers k servers out) id b
      ≡ ((member id (keys servers) && eqb b k) || has_block out id b)
unfolding add_servers
has_block-add_servers k [] out id b = refl
has_block-add_servers k ((peer_id, info) ∷ servers) out id b =
    has_block-add_servers k servers (add_server k peer_id info out) id b
    ∙ ground (arith, has_block-add_server k peer_id info out id b)

module _ (m : Msgpack) where
  -- The result holds a server record of the peer.
  abbrev pub names : FindResult → String → Bool
  names r id = not (is_empty r.value) && member id (keys (servers_in m r.result_type r.value))

  -- The result at the index `b` does, where the first has the index `k`.
  abbrev pub named_at : ℕ → List FindResult → String → ℕ → Bool
  named_at k [] id b = false
  named_at k (r ∷ results) id b = (names r id && eqb b k) || named_at (k + 1) results id b

  has_block-add_results :
      (k : ℕ) (results : List FindResult) (out : Assoc PeerModelEntry) (id : String) (b : ℕ)
      → has_block (add_results m k results out) id b
        ≡ (named_at k results id b || has_block out id b)
  unfolding add_results
  has_block-add_results k [] out id b = refl
  has_block-add_results k (r ∷ results) out id b = elim (Bool-cases (is_empty r.value)) [
    | inl nothing ↦ rw nothing (has_block-add_results (k + 1) results out id b)
    | inr filled ↦ rw filled (
        has_block-add_results (k + 1) results _ id b
        ∙ ground (arith, has_block-add_servers k (servers_in m r.result_type r.value) out id b))
  ]

  named_below :
      (k : ℕ) (results : List FindResult) (id : String) (b : ℕ)
      → b < k
      → named_at k results id b ≡ false
  named_below k [] id b h = refl
  named_below k (r ∷ results) id b h =
      ground (arith, named_below (k + 1) results id b (omega arith))

  -- The result at the position names the peer.
  abbrev pub named_by : List FindResult → ℕ → String → Bool
  named_by results b id = elim (get_elem? results b) [ none ↦ false | some r ↦ names r id ]

  named_at-eq-named_by :
      (k : ℕ) (results : List FindResult) (id : String) (i b : ℕ)
      → b ≡ k + i
      → named_at k results id b ≡ named_by results i id
  named_at-eq-named_by k [] id i b e = refl
  named_at-eq-named_by k (r ∷ results) id zero b e =
      ground (arith, named_below (k + 1) results id b (omega arith))
  named_at-eq-named_by k (r ∷ results) id (suc i) b e =
      ground (arith, named_at-eq-named_by (k + 1) results id i b (omega arith))

  -- After one response a peer is recorded under a block exactly when it was before, or the response's
  -- result at the position of that block is not empty and holds a server record of the peer.
  pub has_block_iff :
      (results : List FindResult) (out : Assoc PeerModelEntry) (id : String) (b : ℕ)
      → has_block (add_results m 0 results out) id b ≡ (named_by results b id || has_block out id b)
  has_block_iff results out id b =
      has_block-add_results 0 results out id b
      ∙ ap (λ (t : Bool). t || has_block out id b)
          (named_at-eq-named_by 0 results id b b (omega arith))

module _ (n : ℕ) where
  add_server-AreBelow :
      (k : ℕ) (peer_id : String) (info : ServerInfo) (out : Assoc PeerModelEntry)
      → k < n
      → AreBelow n out
      → AreBelow n (add_server k peer_id info out)
  unfolding add_server
  add_server-AreBelow k peer_id info [] lt h = (All-insert_nat n k [] lt tt, tt)
  add_server-AreBelow k peer_id info ((j, entry) ∷ out) lt h = elim (Bool-cases (j == peer_id)) [
    | inl same ↦ rw same (All-insert_nat n k entry.blocks lt h.0, h.1)
    | inr other ↦ rw other (h.0, add_server-AreBelow k peer_id info out lt h.1)
  ]

  add_servers-AreBelow :
      (k : ℕ) (servers : List (String × ServerInfo)) (out : Assoc PeerModelEntry)
      → k < n
      → AreBelow n out
      → AreBelow n (add_servers k servers out)
  unfolding add_servers
  add_servers-AreBelow k [] out lt h = h
  add_servers-AreBelow k ((id, info) ∷ servers) out lt h =
      add_servers-AreBelow k servers (add_server k id info out) lt
        (add_server-AreBelow k id info out lt h)

  add_results-AreBelow :
      (m : Msgpack) (k : ℕ) (results : List FindResult) (out : Assoc PeerModelEntry)
      → k + length results ≤ n
      → AreBelow n out
      → AreBelow n (add_results m k results out)
  unfolding add_results
  add_results-AreBelow m k [] out le h = h
  add_results-AreBelow m k (r ∷ results) out le h = elim (Bool-cases (is_empty r.value)) [
    | inl nothing ↦ rw nothing (add_results-AreBelow m (k + 1) results out (omega arith) h)
    | inr filled ↦ rw filled (
        add_results-AreBelow m (k + 1) results _ (omega arith)
          (add_servers-AreBelow k (servers_in m r.result_type r.value) out (omega arith) h))
  ]

length-block_names : (name : ℕ → String) (from n : ℕ) → length (block_names name from n) ≡ n
unfolding block_names
length-block_names name from zero = refl
length-block_names name from (suc n) = ap suc (length-block_names name (from + 1) n)

module _ {World PeerId : Type 0} (net : Network World PeerId) (m : Msgpack) (decimal : ℕ → String)
    (fits : (names : List Bytes) (results : List FindResult)
      → IsAnswer net names results
      → length results ≤ length names) where
  -- Records under block numbers below the model's count stay so.
  pub AreBelow-collect_model :
      (model : Model) (out : Assoc PeerModelEntry) (set : BootstrapSet) (w : World)
      → AreBelow (pos_part model.num_blocks) out
      → AreBelow (pos_part model.num_blocks) (collect_model net m decimal model out set w).0
  unfolding collect_model
  AreBelow-collect_model model out set w h =
      let n = pos_part model.num_blocks in
      let names = block_names (λ b. append model.dht_prefix (append "." (decimal b))) 0 n in
      let count : length (map (id_of net) names) ≡ n =
        length-map (id_of net) names
        ∙ length-block_names (λ b. append model.dht_prefix (append "." (decimal b))) 0 n in
      ask_each_inv net (map (id_of net) names) (add_results m 0) (λ out'. false) (AreBelow n)
        (λ results out' answered below.
          add_results-AreBelow n m 0 results out'
            (omega (arith, count, fits (map (id_of net) names) results answered)) below)
        (live set) out set w h

-- If no answer holds more results than the keys that were asked for, then every peer is recorded
-- under block numbers below the model's block count only, whichever bootstraps answer.
pub collect_model-AreBelow :
    {World PeerId : Type 0} (net : Network World PeerId) (m : Msgpack) (decimal : ℕ → String)
    (model : Model) (set : BootstrapSet) (w : World)
    → ((names : List Bytes) (results : List FindResult)
        → IsAnswer net names results
        → length results ≤ length names)
    → AreBelow (pos_part model.num_blocks) (collect_model net m decimal model [] set w).0
collect_model-AreBelow net m decimal model set w fits =
    AreBelow-collect_model net m decimal fits model [] set w tt
