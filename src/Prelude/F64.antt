-- ===== src/Prelude/F64.antt =====
-- IEEE 754 binary64 values by their bit patterns: the comparisons `>` and `total_cmp` are read off
-- the bits. Arithmetic on them is a parameter where it is used.
use Prim.Native.Nat.{ℕ, ◌+◌, ◌-◌}
use mathlib.Core.Bool.{Bool, true, not, ◌&&◌}
use kwaai_net_map.Prelude.Tests.{ltb, leb, eqb, if◌then◌else◌}

-- A bit pattern below 2 ^ 64; the number 0 is the pattern of 0.0.
abbrev pub F64 : Type 0
F64 = ℕ

abbrev pub negative : F64 → Bool
negative x = leb 9223372036854775808 x

-- The pattern with its sign bit cleared.
abbrev pub magnitude : F64 → ℕ
magnitude x = if negative x then x - 9223372036854775808 else x

abbrev pub is_nan : F64 → Bool
is_nan x = ltb 9218868437227405312 (magnitude x)

-- Where a pattern stands in the order of `total_cmp`.
unfoldable pub rank : F64 → ℕ
rank x = if negative x then 18446744073709551615 - x else x + 9223372036854775808

abbrev pub total_le : F64 → F64 → Bool
total_le x y = leb (rank x) (rank y)

-- `x > y`: false at a NaN and between the two zeros.
unfoldable pub gt : F64 → F64 → Bool
unfolding rank
gt x y =
    not (is_nan x)
    && not (is_nan y)
    && ltb (rank y) (rank x)
    && not (eqb (magnitude x) 0 && eqb (magnitude y) 0)

-- `x == y`: false at a NaN, true between the two zeros.
unfoldable pub feq : F64 → F64 → Bool
feq x y =
    not (is_nan x)
    && not (is_nan y)
    && (if eqb x y then true else eqb (magnitude x) 0 && eqb (magnitude y) 0)
