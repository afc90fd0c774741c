-- ===== src/Crawl.antt =====
-- The queries of one crawl: `rpc_find`, `discover_models`, `collect_model` and `collect_capability`
-- of map-server/src/crawler.rs, as functions of the state of the network.
mod Collecting
pub mod Registry
pub mod Models
pub mod Blocks
pub mod Answers
use kwaai_net_map.Prelude.{
  ℕ, zero, suc, ◌+◌, String, Bool, true, false, not, Option, none, some, List, [], ◌∷◌, map, ◌==◌,
  ltb, if◌then◌else◌, ◌>>=◌, is_empty, is_some, unwrap_or, Assoc, values, lookup, insert, or_insert,
}
use kwaai_net_map.Prelude.Int.{ℤ, pos, ltb_ℤ, pos_part}
use kwaai_net_map.Prelude.Sets.{insert_nat}
use kwaai_net_map.Prelude.Sorting.{before}
use kwaai_net_map.Text.{append, split_once}
use kwaai_net_map.Snapshot.{ServerInfo, default_server_info}
use kwaai_net_map.Bootstrap.{BootstrapSet, live, record_answer}
use kwaai_net_map.Assemble.{Model, PeerModelEntry, is_online}
use kwaai_net_map.Dht.{
  ModelRegistration, dht_key, dictionary_entries, decode_server_info, decode_model_registry,
  servers_in,
}
use kwaai_net_map.Dht.Wire.{Bytes, Msgpack}
unfoldable pub use Collecting.{block_names, add_server, add_servers}

pub record FindResult : Type 0 where
  pub result_type : ℤ
  pub value : Bytes

-- What the crawl asks of the swarm and of the message libraries. `World` is the network's state.
pub record Network (World PeerId : Type 0) : Type 0 where
  pub parse_peer : String → Option PeerId
  pub to_vec : String → Bytes
  pub sha1 : Bytes → Bytes
  pub encode : List Bytes → Option Bytes
  pub decode : Bytes → Option (List FindResult)
  pub call_unary_handler : PeerId → Bytes → World → Option Bytes × World
  pub connect_peer : String → World → World

-- The DHT's id of a key.
abbrev pub id_of : {World PeerId : Type 0} → Network World PeerId → String → Bytes
id_of net = dht_key net.to_vec net.sha1

-- `split("/p2p/").nth(1)`
unfoldable pub second_piece : String → Option String
second_piece s = do
  e ← split_once "/p2p/" s
  some (elim (split_once "/p2p/" e.1) [ none ↦ e.1 | some f ↦ f.0 ])

-- The prefixes that stand in for an empty registry.
abbrev pub fallback_prefixes : List String
fallback_prefixes =
    "Llama-3-1-8B-Instruct" ∷ "Meta-Llama-3-1-8B-Instruct" ∷ "Llama-2-70b-chat-hf" ∷ "bloom" ∷ []

abbrev pub fallback_blocks : ℤ
fallback_blocks = pos 80

abbrev pub fallback_models : List Model
fallback_models =
    map (λ (p : String). record { dht_prefix = p; repository = ""; num_blocks = fallback_blocks })
      fallback_prefixes

-- `clamp(1, MAX_BLOCKS)`
unfoldable pub clamp_blocks : ℤ → ℤ
clamp_blocks n = if ltb_ℤ n (pos 1) then pos 1 else if ltb_ℤ (pos 512) n then pos 512 else n

-- `found.entry(prefix).or_insert(model)`, in the order of the prefixes.
unfoldable pub or_insert_sorted : String → Model → Assoc Model → Assoc Model
or_insert_sorted k v [] = (k, v) ∷ []
or_insert_sorted k v ((j, w) ∷ m) =
    if j == k
    then (j, w) ∷ m
    else if before k j
    then (k, v) ∷ (j, w) ∷ m
    else (j, w) ∷ or_insert_sorted k v m

unfoldable pub register : List ModelRegistration → Assoc Model → Assoc Model
unfolding or_insert_sorted clamp_blocks
register [] found = found
register (reg ∷ regs) found = register regs (
    or_insert_sorted reg.dht_prefix
      (record {
        dht_prefix = reg.dht_prefix;
        repository = reg.repository;
        num_blocks = clamp_blocks reg.num_blocks;
      })
      found)

module _ (m : Msgpack) where
  unfoldable pub register_results : List FindResult → Assoc Model → Assoc Model
  unfolding register
  register_results [] found = found
  register_results (r ∷ results) found =
      register_results results
        (if is_empty r.value then found else register (decode_model_registry m r.value) found)

  -- The results of one response, whose first has the index `block`.
  unfoldable pub add_results : ℕ → List FindResult → Assoc PeerModelEntry → Assoc PeerModelEntry
  unfolding add_servers
  add_results block [] out = out
  add_results block (r ∷ results) out =
      add_results (block + 1) results (
        if is_empty r.value
        then out
        else add_servers block (servers_in m r.result_type r.value) out)

  abbrev pub unknown_info : ServerInfo
  unknown_info = record default_server_info { state = "unknown" }

  unfoldable pub note_capable : List (String × Bytes) → Assoc ServerInfo → Assoc ServerInfo
  note_capable [] out = out
  note_capable ((peer_id, raw) ∷ entries) out =
      note_capable entries
        (or_insert peer_id (unwrap_or (decode_server_info m raw) unknown_info) out)

  unfoldable pub note_results : List FindResult → Assoc ServerInfo → Assoc ServerInfo
  unfolding note_capable
  note_results [] out = out
  note_results (r ∷ results) out =
      note_results results
        (if is_empty r.value then out else note_capable (dictionary_entries m r.value) out)

module _ {World PeerId : Type 0} (net : Network World PeerId) where
  unfoldable pub call_twice : PeerId → String → Bytes → World → Option (List FindResult) × World
  call_twice bp bootstrap bytes w =
      let (first, w') = net.call_unary_handler bp bytes w in
      elim first [
        | some resp ↦ (net.decode resp, w')
        | none ↦
            let (retried, w'') = net.call_unary_handler bp bytes (net.connect_peer bootstrap w') in
            (retried >>= net.decode, w'')
      ]

  unfoldable pub rpc_find_inner : String → List Bytes → World → Option (List FindResult) × World
  unfolding call_twice second_piece
  rpc_find_inner bootstrap keys w = elim (second_piece bootstrap >>= net.parse_peer) [
    | none ↦ (none, w)
    | some bp ↦ elim (net.encode keys) [
      | none ↦ (none, w)
      | some bytes ↦ call_twice bp bootstrap bytes w
    ]
  ]

  -- The set records whether the bootstrap answered.
  unfoldable pub rpc_find :
      String → List Bytes → BootstrapSet → World → Option (List FindResult) × BootstrapSet × World
  rpc_find bootstrap keys set w =
      let (response, w') = rpc_find_inner bootstrap keys w in
      (response, record_answer bootstrap (is_some response) set, w')

  -- A query of each address in turn, whose results a step folds into the state, until the test
  -- holds of the state after an answer.
  unfoldable pub ask_each {ℓ} :
      {S : Type ℓ}
      → List Bytes
      → (List FindResult → S → S)
      → (S → Bool)
      → List String
      → S
      → BootstrapSet
      → World
      → S × BootstrapSet × World
  ask_each keys step enough [] s set w = (s, set, w)
  ask_each keys step enough (addr ∷ addrs) s set w =
      let (response, set', w') = rpc_find addr keys set w in
      elim response [
        | none ↦ ask_each keys step enough addrs s set' w'
        | some results ↦
            let s' = step results s in
            elim (enough s') [
              | true ↦ (s', set', w')
              | false ↦ ask_each keys step enough addrs s' set' w'
            ]
      ]

  module _ (m : Msgpack) where
    unfoldable pub discover_models : BootstrapSet → World → List Model × BootstrapSet × World
    unfolding ask_each register_results
    discover_models set w =
        let (found, set', w') =
          ask_each (id_of net "_petals.models" ∷ []) (register_results m) (λ f. not (is_empty f))
            (live set) [] set w in
        (if is_empty found then fallback_models else values found, set', w')

    -- `decimal` prints a block number.
    unfoldable pub collect_model :
        (decimal : ℕ → String)
        → Model
        → Assoc PeerModelEntry
        → BootstrapSet
        → World
        → Assoc PeerModelEntry × BootstrapSet × World
    unfolding ask_each add_results block_names
    collect_model decimal model out set w =
        ask_each
          (map (id_of net) (
            block_names (λ b. append model.dht_prefix (append "." (decimal b))) 0
              (pos_part model.num_blocks)))
          (add_results m 0) (λ out'. false) (live set) out set w

    unfoldable pub collect_capability :
        String → Assoc ServerInfo → BootstrapSet → World → Assoc ServerInfo × BootstrapSet × World
    unfolding ask_each note_results
    collect_capability key out set w =
        ask_each (id_of net key ∷ []) (note_results m) (λ out'. false) (live set) out set w
