-- ===== src/Prelude/Json.antt =====
-- The values of `serde_json`, which the map server stores and never looks into.
use Prim.Native.String.{String}
use mathlib.Core.Bool.{Bool}
use kwaai_net_map.Prelude.Int.{ℤ}
use kwaai_net_map.Prelude.F64.{F64}

mutual
  pub data Json : Type 0 where
    null : Json
    bool : Bool → Json
    integer : ℤ → Json
    float : F64 → Json
    string : String → Json
    array : Items → Json
    object : Members → Json

  pub data Items : Type 0 where
    nil : Items
    cons : Json → Items → Items

  pub data Members : Type 0 where
    end : Members
    member : String → Json → Members → Members
