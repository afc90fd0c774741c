-- ===== src/Dht/Wire.antt =====
-- MessagePack values, `rmpv::Value`, and what the decoders take from the libraries.
use kwaai_net_map.Prelude.{ℕ, String, Bool, Option, none, some, List, [], ◌∷◌}
use kwaai_net_map.Prelude.Int.{ℤ}
use kwaai_net_map.Prelude.F64.{F64}
use kwaai_net_map.Prelude.Json.{Json}

abbrev pub Bytes : Type 0
Bytes = List ℕ

mutual
  pub data Value : Type 0 where
    nil : Value
    boolean : Bool → Value
    integer : ℤ → Value
    float : F64 → Value
    string : List ℕ → Value
    binary : List ℕ → Value
    array : Values → Value
    map : Pairs → Value
    ext : ℤ → List ℕ → Value

  pub data Values : Type 0 where
    done : Values
    more : Value → Values → Values

  pub data Pairs : Type 0 where
    end : Pairs
    pair : Value → Value → Pairs → Pairs

abbrev pub values : Values → List Value
values done = []
values (more v vs) = v ∷ values vs

abbrev pub pairs : Pairs → List (Value × Value)
pairs end = []
pairs (pair k v ps) = (k, v) ∷ pairs ps

-- The decoder of one value from the front of the bytes, the conversions of numbers, the test for
-- UTF-8 and `serde_json::to_value`.
pub record Msgpack : Type 0 where
  pub read_value : Bytes → Option Value
  pub as_i64 : Value → Option ℤ
  pub as_f64 : Value → Option F64
  pub utf8 : Bytes → Option String
  pub to_json : Value → Option Json

abbrev pub as_str : Msgpack → Value → Option String
as_str m (string s) = m.utf8 s
as_str m _ = none

abbrev pub as_bool : Value → Option Bool
as_bool (boolean b) = some b
as_bool _ = none

abbrev pub as_array : Value → Option (List Value)
as_array (array vs) = some (values vs)
as_array _ = none

abbrev pub as_map : Value → Option (List (Value × Value))
as_map (map ps) = some (pairs ps)
as_map _ = none
