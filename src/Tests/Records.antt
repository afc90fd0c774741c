-- ===== src/Tests/Records.antt =====
-- A server's record that gives a field twice.
use kwaai_net_map.Prelude.{String, Option, none, some, Bool, [], ◌∷◌, ◌≡◌, refl, eqb, if◌then◌else◌}
use kwaai_net_map.Prelude.Int.{ℤ, pos}
use kwaai_net_map.Snapshot.{default_server_info}
use kwaai_net_map.Dht.{unwrap_ext, bare_info, decode_server_info}
use kwaai_net_map.Dht.Wire.{Bytes, Value, Values, Pairs, Msgpack, pairs}
use kwaai_net_map.Dht.Fields.{by_last, decode_server_info_lem}

-- `end_block` is 4 and then 9, and there is a name that is not known.
abbrev fields : Pairs
fields = Pairs.pair (Value.string (1 ∷ [])) (Value.integer (pos 4)) (
    Pairs.pair (Value.string (2 ∷ [])) (Value.boolean Bool.true)
      (Pairs.pair (Value.string (1 ∷ [])) (Value.integer (pos 9)) Pairs.end))

abbrev server : Value
server = Value.array (
    Values.more (Value.integer (pos 1))
      (Values.more (Value.float 5) (Values.more (Value.map fields) Values.done)))

abbrev as_i64 : Value → Option ℤ
as_i64 (Value.integer n) = some n
as_i64 _ = none

abbrev utf8 : Bytes → Option String
utf8 [] = none
utf8 (b ∷ bytes) = if eqb b 1 then some "end_block" else some "colour"

abbrev msgpack : Msgpack
msgpack = record {
  read_value = λ bytes. elim bytes [ [] ↦ some server | b ∷ rest ↦ some (Value.ext (pos 64) []) ];
  as_i64 = as_i64;
  as_f64 = λ v. some 5;
  utf8 = utf8;
  to_json = λ v. none;
}

decode_server_info_lem_example :
    decode_server_info msgpack (7 ∷ [])
    ≡ some
        (by_last msgpack (pairs fields) (bare_info msgpack (Value.integer (pos 1)) (Value.float 5)))
unfolding unwrap_ext
decode_server_info_lem_example =
    decode_server_info_lem msgpack (7 ∷ []) (Value.integer (pos 1)) (Value.float 5) fields
      Values.done refl

last_wins :
    decode_server_info msgpack (7 ∷ [])
    ≡ some (record default_server_info { state = "joining"; throughput = 5; end_block = pos 9 })
unfolding decode_server_info
last_wins = refl
