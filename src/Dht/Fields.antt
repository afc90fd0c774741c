-- ===== src/Dht/Fields.antt =====
-- The fields of a server's record, each by its name.
use kwaai_net_map.Prelude.{
  String, false, Option, none, some, List, [], ◌∷◌, ◌≡◌, refl, ◌∙◌, ap, ◌==◌, if◌then◌else◌,
  unwrap_or, map_option, or_else, eq_iff, arith, Bool-cases, inl, inr,
}
use mathlib.Core.Path.{subst, sym}
use kwaai_net_map.Prelude.Int.{pos}
use kwaai_net_map.Snapshot.{ServerInfo}
use kwaai_net_map.Dht.{
  set_field, set_fields, int_or_zero, count_of, bare_info, server_info_of, unwrap_ext,
  decode_server_info,
}
use kwaai_net_map.Dht.Wire.{Bytes, Value, Values, more, Pairs, Msgpack, pairs, as_str, as_bool}

module _ (m : Msgpack) where
  abbrev name_of : Value → String
  name_of k = unwrap_or (as_str m k) ""

  -- The last value under the name.
  abbrev pub last_value : String → List (Value × Value) → Option Value
  last_value name [] = none
  last_value name ((k, v) ∷ fields) =
      or_else (last_value name fields) (if name_of k == name then some v else none)

  -- The last value under the name, as it is read, or else what the field was.
  abbrev pub last {ℓ} : {A : Type ℓ} → String → (Value → A) → List (Value × Value) → A → A
  last name read fields old = unwrap_or (map_option read (last_value name fields)) old

  last_cons {ℓ} :
      {A : Type ℓ} (name : String) (read : Value → A) (k v : Value) (fields : List (Value × Value))
      (old : A)
      → last name read fields (if name_of k == name then read v else old)
        ≡ last name read ((k, v) ∷ fields) old
  last_cons name read k v fields old = ground arith

  -- Each field by its own name, independently of the others.
  abbrev pub by_last : List (Value × Value) → ServerInfo → ServerInfo
  by_last fields info = record {
    state = info.state;
    throughput = info.throughput;
    start_block = last "start_block" (int_or_zero m) fields info.start_block;
    end_block = last "end_block" (int_or_zero m) fields info.end_block;
    public_name = last "public_name" (as_str m) fields info.public_name;
    version = last "version" (as_str m) fields info.version;
    network_rps = last "network_rps" m.as_f64 fields info.network_rps;
    forward_rps = last "forward_rps" m.as_f64 fields info.forward_rps;
    inference_rps = last "inference_rps" m.as_f64 fields info.inference_rps;
    torch_dtype = last "torch_dtype" (as_str m) fields info.torch_dtype;
    quant_type = last "quant_type" (as_str m) fields info.quant_type;
    using_relay = last "using_relay" as_bool fields info.using_relay;
    cache_tokens_left = last "cache_tokens_left" m.as_i64 fields info.cache_tokens_left;
    shard_loading = last "shard_loading" as_bool fields info.shard_loading;
    vpk = last "vpk" m.to_json fields info.vpk;
    trust_attestations = last "trust_attestations" (count_of m) fields info.trust_attestations;
    peer_id = last "peer_id" (as_str m) fields info.peer_id;
  }

  -- One pair sets the field of its name.
  abbrev one_arm : Value → ServerInfo → String → ServerInfo
  one_arm v info k = record {
    state = info.state;
    throughput = info.throughput;
    start_block = if k == "start_block" then int_or_zero m v else info.start_block;
    end_block = if k == "end_block" then int_or_zero m v else info.end_block;
    public_name = if k == "public_name" then as_str m v else info.public_name;
    version = if k == "version" then as_str m v else info.version;
    network_rps = if k == "network_rps" then m.as_f64 v else info.network_rps;
    forward_rps = if k == "forward_rps" then m.as_f64 v else info.forward_rps;
    inference_rps = if k == "inference_rps" then m.as_f64 v else info.inference_rps;
    torch_dtype = if k == "torch_dtype" then as_str m v else info.torch_dtype;
    quant_type = if k == "quant_type" then as_str m v else info.quant_type;
    using_relay = if k == "using_relay" then as_bool v else info.using_relay;
    cache_tokens_left = if k == "cache_tokens_left" then m.as_i64 v else info.cache_tokens_left;
    shard_loading = if k == "shard_loading" then as_bool v else info.shard_loading;
    vpk = if k == "vpk" then m.to_json v else info.vpk;
    trust_attestations =
        if k == "trust_attestations" then count_of m v else info.trust_attestations;
    peer_id = if k == "peer_id" then as_str m v else info.peer_id;
  }

  -- The name is the literal, or it is not and the test says so.
  at_name : (P : String → Type 0) (name k : String) → P name → ((k == name) ≡ false → P k) → P k
  at_name P name k here there = elim (Bool-cases (k == name)) [
    | inl same ↦ subst P (sym ((eq_iff k name).0 same)) here
    | inr other ↦ there other
  ]

  set_field_lem :
      (v : Value) (info : ServerInfo) (k : String) → set_field m k v info ≡ one_arm v info k
  unfolding set_field
  set_field_lem v info k =
      let P : String → Type 0 = λ j. set_field m j v info ≡ one_arm v info j in
      at_name P "start_block" k refl (λ a. at_name P "end_block" k refl (λ b.
        at_name P "public_name" k refl (λ c. at_name P "version" k refl (λ d.
          at_name P "network_rps" k refl (λ e. at_name P "forward_rps" k refl (λ f.
            at_name P "inference_rps" k refl (λ g. at_name P "torch_dtype" k refl (λ h.
              at_name P "quant_type" k refl (λ i. at_name P "using_relay" k refl (λ j.
                at_name P "shard_loading" k refl (λ l. at_name P "cache_tokens_left" k refl (λ n.
                  at_name P "peer_id" k refl (λ o. at_name P "vpk" k refl (λ p.
                    at_name P "trust_attestations" k refl
                      (λ q. rw (a, b, c, d, e, f, g, h, i, j, l, n, o, p, q) refl)))))))))))))))

  by_last_cons :
      (k v : Value) (fields : List (Value × Value)) (info : ServerInfo)
      → by_last fields (one_arm v info (name_of k)) ≡ by_last ((k, v) ∷ fields) info
  by_last_cons k v fields info i = record {
    state = info.state;
    throughput = info.throughput;
    start_block = last_cons "start_block" (int_or_zero m) k v fields info.start_block i;
    end_block = last_cons "end_block" (int_or_zero m) k v fields info.end_block i;
    public_name = last_cons "public_name" (as_str m) k v fields info.public_name i;
    version = last_cons "version" (as_str m) k v fields info.version i;
    network_rps = last_cons "network_rps" m.as_f64 k v fields info.network_rps i;
    forward_rps = last_cons "forward_rps" m.as_f64 k v fields info.forward_rps i;
    inference_rps = last_cons "inference_rps" m.as_f64 k v fields info.inference_rps i;
    torch_dtype = last_cons "torch_dtype" (as_str m) k v fields info.torch_dtype i;
    quant_type = last_cons "quant_type" (as_str m) k v fields info.quant_type i;
    using_relay = last_cons "using_relay" as_bool k v fields info.using_relay i;
    cache_tokens_left = last_cons "cache_tokens_left" m.as_i64 k v fields info.cache_tokens_left i;
    shard_loading = last_cons "shard_loading" as_bool k v fields info.shard_loading i;
    vpk = last_cons "vpk" m.to_json k v fields info.vpk i;
    trust_attestations =
        last_cons "trust_attestations" (count_of m) k v fields info.trust_attestations i;
    peer_id = last_cons "peer_id" (as_str m) k v fields info.peer_id i;
  }

  set_fields_lem :
      (fields : List (Value × Value)) (info : ServerInfo)
      → set_fields m fields info ≡ by_last fields info
  unfolding set_fields
  set_fields_lem [] info = refl
  set_fields_lem ((k, v) ∷ fields) info =
      set_fields_lem fields (set_field m (name_of k) v info)
      ∙ ap (by_last fields) (set_field_lem v info (name_of k))
      ∙ by_last_cons k v fields info

  -- The value of a record is an array whose third value is a map: then the record is read, its state
  -- and throughput are those of the first two values, and each other field is what its reader makes
  -- of the last value under the field's name, or its default if there is none. Nothing else of the
  -- map matters, nor what the array holds after it.
  pub decode_server_info_lem :
      (bytes : Bytes) (state throughput : Value) (ps : Pairs) (rest : Values)
      → unwrap_ext m bytes (pos 64)
        ≡ some (Value.array (more state (more throughput (more (Value.map ps) rest))))
      → decode_server_info m bytes ≡ some (by_last (pairs ps) (bare_info m state throughput))
  unfolding decode_server_info server_info_of
  decode_server_info_lem bytes state throughput ps rest read =
      rw read (ap some (set_fields_lem (pairs ps) (bare_info m state throughput)))
