-- ===== src/Dht.antt =====
-- The decoders of the DHT records: map-server/src/dht.rs, and `servers_in` of
-- map-server/src/crawler.rs.
pub mod Wire
pub mod Entries
pub mod Fields
use kwaai_net_map.Prelude.{
  ℕ, zero, suc, String, Bool, true, false, not, Option, none, some, List, [], ◌∷◌, ◌==◌,
  if◌then◌else◌, ◌>>=◌, map_option, unwrap_or, filter_map, get_elem?, length,
}
use kwaai_net_map.Prelude.Int.{ℤ, pos, negsuc, eqb_ℤ}
use kwaai_net_map.Snapshot.{ServerInfo, default_server_info}
use Wire.{Bytes, Value, Msgpack, as_str, as_bool, as_array, as_map}

-- `Sha1` of the MessagePack encoding of the key, which are the libraries'.
abbrev pub dht_key : (to_vec : String → Bytes) → (sha1 : Bytes → Bytes) → String → Bytes
dht_key to_vec sha1 raw_key = sha1 (to_vec raw_key)

unfoldable pub state_name : ℤ → String
state_name (negsuc zero) = "offline"
state_name (pos zero) = "offline"
state_name (pos (suc zero)) = "joining"
state_name (pos (suc (suc zero))) = "online"
state_name raw = "unknown"

pub record ModelRegistration : Type 0 where
  pub dht_prefix : String
  pub repository : String
  pub num_blocks : ℤ

module _ (m : Msgpack) where
  -- The payload of an extension value with the tag.
  abbrev pub payload : ℤ → Value → Option Bytes
  payload tag (Value.ext t b) = if eqb_ℤ t tag then some b else none
  payload tag _ = none

  unfoldable pub unwrap_ext : Bytes → ℤ → Option Value
  unwrap_ext bytes tag = do
    outer ← m.read_value bytes
    inner ← payload tag outer
    m.read_value inner

  abbrev pub text_of : Value → Option String
  text_of (Value.string s) = m.utf8 s
  text_of _ = none

  unfoldable pub subkey_to_string : Value → Option String
  subkey_to_string (Value.string s) = m.utf8 s
  subkey_to_string (Value.binary b) = m.read_value b >>= text_of
  subkey_to_string _ = none

  abbrev pub binary_of : Value → Option Bytes
  binary_of (Value.binary b) = some b
  binary_of _ = none

  -- The closure of `dictionary_entries`, on one entry.
  unfoldable pub dictionary_entry : Value → Option (String × Bytes)
  unfolding subkey_to_string
  dictionary_entry entry = do
    e ← as_array entry
    first ← get_elem? e 0
    subkey ← subkey_to_string first
    second ← get_elem? e 1
    value ← binary_of second
    if not (subkey == "") then some (subkey, value) else none

  abbrev pub entries_of : Bytes → Option (List Value)
  entries_of bytes = do
    inner ← unwrap_ext bytes (pos 80)
    arr ← as_array inner
    third ← get_elem? arr 2
    as_array third

  unfoldable pub dictionary_entries : Bytes → List (String × Bytes)
  unfolding dictionary_entry unwrap_ext
  dictionary_entries bytes = filter_map dictionary_entry (unwrap_or (entries_of bytes) [])

  abbrev pub int_or_zero : Value → ℤ
  int_or_zero v = unwrap_or (m.as_i64 v) (pos 0)

  abbrev pub count_of : Value → ℕ
  count_of v = unwrap_or (map_option length (as_array v)) 0

  -- One arm of the `match` over the field's name.
  unfoldable pub set_field : String → Value → ServerInfo → ServerInfo
  set_field k v info =
      if k == "start_block"
      then record info { start_block = int_or_zero v }
      else if k == "end_block"
      then record info { end_block = int_or_zero v }
      else if k == "public_name"
      then record info { public_name = as_str m v }
      else if k == "version"
      then record info { version = as_str m v }
      else if k == "network_rps"
      then record info { network_rps = m.as_f64 v }
      else if k == "forward_rps"
      then record info { forward_rps = m.as_f64 v }
      else if k == "inference_rps"
      then record info { inference_rps = m.as_f64 v }
      else if k == "torch_dtype"
      then record info { torch_dtype = as_str m v }
      else if k == "quant_type"
      then record info { quant_type = as_str m v }
      else if k == "using_relay"
      then record info { using_relay = as_bool v }
      else if k == "shard_loading"
      then record info { shard_loading = as_bool v }
      else if k == "cache_tokens_left"
      then record info { cache_tokens_left = m.as_i64 v }
      else if k == "peer_id"
      then record info { peer_id = as_str m v }
      else if k == "vpk"
      then record info { vpk = m.to_json v }
      else if k == "trust_attestations"
      then record info { trust_attestations = count_of v }
      else info

  unfoldable pub set_fields : List (Value × Value) → ServerInfo → ServerInfo
  unfolding set_field
  set_fields [] info = info
  set_fields ((k, v) ∷ fields) info =
      set_fields fields (set_field (unwrap_or (as_str m k) "") v info)

  -- The record before its fields are read.
  abbrev pub bare_info : Value → Value → ServerInfo
  bare_info state throughput = record default_server_info {
    state = state_name (int_or_zero state);
    throughput = unwrap_or (m.as_f64 throughput) 0;
  }

  -- An array of three values or more.
  unfoldable pub server_info_of : List Value → Option ServerInfo
  unfolding set_fields state_name
  server_info_of (state ∷ throughput ∷ fields ∷ rest) = do
    map_fields ← as_map fields
    some (set_fields map_fields (bare_info state throughput))
  server_info_of _ = none

  unfoldable pub decode_server_info : Bytes → Option ServerInfo
  unfolding unwrap_ext server_info_of
  decode_server_info bytes = do
    inner ← unwrap_ext bytes (pos 64)
    arr ← as_array inner
    server_info_of arr

  -- The first value under the name.
  unfoldable pub find_value : String → List (Value × Value) → Option Value
  find_value name [] = none
  find_value name ((k, v) ∷ fields) =
      if (elim (as_str m k) [ none ↦ false | some key ↦ key == name ])
      then some v
      else find_value name fields

  unfoldable pub registration : String × Bytes → Option ModelRegistration
  unfolding find_value
  registration (dht_prefix, value) = do
    v ← m.read_value value
    fields ← as_map v
    some (record {
      dht_prefix = dht_prefix;
      repository = unwrap_or (find_value "repository" fields >>= as_str m) "";
      num_blocks = unwrap_or (find_value "num_blocks" fields >>= m.as_i64) (pos 0);
    })

  unfoldable pub decode_model_registry : Bytes → List ModelRegistration
  unfolding registration dictionary_entries
  decode_model_registry bytes = filter_map registration (dictionary_entries bytes)

  abbrev pub decode_entry : String × Bytes → Option (String × ServerInfo)
  decode_entry e = map_option (λ info. (e.0, info)) (decode_server_info e.1)

  abbrev pub named : ServerInfo → Option (List (String × ServerInfo))
  named info = map_option (λ id. (id, info) ∷ []) info.peer_id

  -- Result types: 1 is a regular value, 2 a dictionary.
  unfoldable pub servers_in : ℤ → Bytes → List (String × ServerInfo)
  unfolding dictionary_entries decode_server_info
  servers_in result_type value =
      if eqb_ℤ result_type (pos 2)
      then filter_map decode_entry (dictionary_entries value)
      else if eqb_ℤ result_type (pos 1)
      then unwrap_or (decode_server_info value >>= named) []
      else []
