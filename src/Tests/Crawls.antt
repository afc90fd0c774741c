-- ===== src/Tests/Crawls.antt =====
-- A crawl of a network with one bootstrap that answers and one that does not.
use kwaai_net_map.Prelude.{
  ℕ, ◌+◌, ◌≤◌, String, true, ◌||◌, Option, none, some, List, [], ◌∷◌, ◌≡◌, ◌≢◌, refl, ◌==◌,
  if◌then◌else◌, eqb, lookup, length, All, arith,
}
use kwaai_net_map.Prelude.Int.{ℤ, pos, pos_part}
use kwaai_net_map.Prelude.Sets.{insert_nat}
use kwaai_net_map.Bootstrap.{BootstrapSet, new}
use kwaai_net_map.Assemble.{Model}
use kwaai_net_map.Assemble.Health.{AreBelow}
use kwaai_net_map.Dht.{servers_in}
use kwaai_net_map.Dht.Wire.{Bytes, Value, Values, Pairs, Msgpack}
use kwaai_net_map.Crawl.{FindResult, Network, add_results, discover_models, collect_model}
use kwaai_net_map.Prelude.{map, length-map, ap, Bool-cases, inl, inr}
use kwaai_net_map.Crawl.Answers.{IsAnswer}
use kwaai_net_map.Crawl.Models.{HasFewBlocks, discover_models_lem}
use kwaai_net_map.Crawl.Blocks.{has_block, named_by, has_block_iff, collect_model-AreBelow}

-- An online server that names itself.
abbrev server : Value
server = Value.array (
    Values.more (Value.integer (pos 2)) (
      Values.more (Value.float 0) (
        Values.more
          (Value.map (Pairs.pair (Value.string (1 ∷ [])) (Value.string (2 ∷ [])) Pairs.end))
          Values.done)))

abbrev read_value : Bytes → Option Value
read_value [] = none
read_value (b ∷ bytes) =
    if eqb b 7 then some (Value.ext (pos 64) (8 ∷ [])) else if eqb b 8 then some server else none

abbrev as_i64 : Value → Option ℤ
as_i64 (Value.integer n) = some n
as_i64 _ = none

abbrev utf8 : Bytes → Option String
utf8 [] = none
utf8 (b ∷ bytes) = if eqb b 1 then some "peer_id" else some "QmA"

abbrev pub toy : Msgpack
toy = record {
  read_value = read_value;
  as_i64 = as_i64;
  as_f64 = λ v. none;
  utf8 = utf8;
  to_json = λ v. none;
}

abbrev result : Bytes → FindResult
result value = record { result_type = pos 1; value = value }

abbrev response : List FindResult
response = result [] ∷ result (7 ∷ []) ∷ []

has_block_test : has_block (add_results toy 0 response []) "QmA" 1 ≡ true
unfolding add_results servers_in lookup insert_nat
has_block_test = refl

has_block_iff_example :
    has_block (add_results toy 0 response []) "QmA" 1
    ≡ (named_by toy response 1 "QmA" || has_block [] "QmA" 1)
has_block_iff_example = has_block_iff toy response [] "QmA" 1

abbrev decode : Bytes → Option (List FindResult)
decode [] = some []
decode bytes = some response

-- Only the peer QmLive answers; the world counts the calls.
abbrev pub net : Network ℕ String
net = record {
  parse_peer = λ s. some s;
  to_vec = λ s. 3 ∷ [];
  sha1 = λ b. b;
  encode = λ keys. some [];
  decode = decode;
  call_unary_handler = λ bp bytes w. (if bp == "QmLive" then some (9 ∷ []) else none, w + 1);
  connect_peer = λ addr w. w;
}

abbrev bootstraps : BootstrapSet
bootstraps = new ("/ip4/1.1.1.1/tcp/1/p2p/QmDead" ∷ "/ip4/2.2.2.2/tcp/1/p2p/QmLive" ∷ [])

abbrev small : Model
small = record { dht_prefix = "bloom"; repository = ""; num_blocks = pos 2 }

abbrev pub one_digit : ℕ → String
one_digit n = if eqb n 0 then "0" else "1"

-- The key of the block 0 of bloom is held; the bytes of a request are those of its keys, and a
-- response repeats them.
abbrev key_of : String → Bytes
key_of s = if s == "bloom.0" then 7 ∷ [] else 3 ∷ []

abbrev first_byte : Bytes → ℕ
first_byte [] = 0
first_byte (b ∷ bytes) = b

abbrev held_at : ℕ → FindResult
held_at b = result (if eqb b 7 then 7 ∷ [] else [])

abbrev pub echo : Network ℕ String
echo = record {
  parse_peer = λ s. some s;
  to_vec = key_of;
  sha1 = λ b. b;
  encode = λ names. some (map first_byte names);
  decode = λ bytes. some (map held_at bytes);
  call_unary_handler = λ bp bytes w. (if bp == "QmLive" then some bytes else none, w + 1);
  connect_peer = λ addr w. w;
}

pub echo_fits :
    (names : List Bytes) (results : List FindResult)
    → IsAnswer echo names results
    → length results ≤ length names
echo_fits names results (bp, bytes, resp, w, encoded, answered, decoded) =
    elim (Bool-cases (bp == "QmLive")) [
      | inl alive ↦
          let sent : map first_byte names ≡ bytes = ground arith in
          let kept : bytes ≡ resp = ground arith in
          let read : map held_at resp ≡ results = ground arith in
          omega (
            arith,
            length-map first_byte names,
            length-map held_at resp,
            ap length sent,
            ap length kept,
            ap length read,
          )
      | inr dead ↦ absurd (ground arith)
    ]

blocks_below_test :
    AreBelow (pos_part small.num_blocks) (collect_model echo toy one_digit small [] bootstraps 0).0
blocks_below_test = collect_model-AreBelow echo toy one_digit small bootstraps 0 echo_fits

discover_models_lem_example :
    ((discover_models net toy bootstraps 0).0 ≢ [])
    × All HasFewBlocks (discover_models net toy bootstraps 0).0
discover_models_lem_example = discover_models_lem net toy bootstraps 0
