-- ===== src/Text.antt =====
-- The operations of Rust's `str` that the map server uses, on native texts: `strip_prefix`,
-- `contains`, `split_once`, `rsplit_once`, `split`, `split_whitespace`, `trim_end_matches`, `trim`,
-- and `parse` of a `usize`.
pub mod Pieces
pub mod Splits
use Prim.Native.Char.{Char, code}
use Prim.Native.String
use Prim.Native.String.{[], ◌∷◌}
use kwaai_net_map.Prelude.{
  ℕ, ◌+◌, ◌-◌, ◌*◌, String, Bool, not, ◌&&◌, ◌||◌, Option, none, some, List, ltb, leb, eqb,
  if◌then◌else◌, map_option, is_some, select, ◌==◌,
}

abbrev pub append : String → String → String
append s t = String.◌++◌ s t

-- What follows the prefix `p` in `s`, if `s` starts with `p`.
unfoldable pub strip_prefix : String → String → Option String
strip_prefix [] s = some s
strip_prefix (c ∷ p) [] = none
strip_prefix (c ∷ p) (d ∷ s) = if eqb (code c) (code d) then strip_prefix p s else none

unfoldable pub starts_with : String → String → Bool
unfolding strip_prefix
starts_with s p = is_some (strip_prefix p s)

-- `s.contains(p)`
unfoldable pub contains : String → String → Bool
unfolding starts_with
contains [] p = starts_with [] p
contains (c ∷ s) p = starts_with (c ∷ s) p || contains s p

-- `s.split_once(p)`: around the first occurrence.
unfoldable pub split_once : String → String → Option (String × String)
unfolding strip_prefix
split_once p [] = map_option (λ rest. ([], rest)) (strip_prefix p [])
split_once p (c ∷ s) = elim (strip_prefix p (c ∷ s)) [
  | some rest ↦ some ([], rest)
  | none ↦ map_option (λ (e : String × String). (c ∷ e.0, e.1)) (split_once p s)
]

-- `s.rsplit_once(p)`: around the last occurrence.
unfoldable pub rsplit_once : String → String → Option (String × String)
unfolding strip_prefix
rsplit_once p [] = map_option (λ rest. ([], rest)) (strip_prefix p [])
rsplit_once p (c ∷ s) = elim (rsplit_once p s) [
  | some e ↦ some (c ∷ e.0, e.1)
  | none ↦ map_option (λ rest. ([], rest)) (strip_prefix p (c ∷ s))
]

-- A character in front of the first piece.
abbrev pub extend : Char → List String → List String
extend c List.[] = List.◌∷◌ (c ∷ []) List.[]
extend c (List.◌∷◌ piece pieces) = List.◌∷◌ (c ∷ piece) pieces

-- `s.split('/')`
unfoldable pub split_slash : String → List String
split_slash [] = List.◌∷◌ [] List.[]
split_slash (c ∷ s) =
    let pieces = split_slash s in if eqb (code c) b'/' then List.◌∷◌ [] pieces else extend c pieces

-- `s.trim_end_matches('/')`
unfoldable pub trim_end_slash : String → String
trim_end_slash [] = []
trim_end_slash (c ∷ s) =
    let rest = trim_end_slash s in
    if eqb (code c) b'/' then (if rest == [] then [] else c ∷ rest) else c ∷ rest

-- `char::is_whitespace`
abbrev pub is_whitespace : Char → Bool
is_whitespace c =
    let n = code c in
    (leb 9 n && leb n 13)
    || eqb n 32
    || eqb n 133
    || eqb n 160
    || eqb n 5760
    || (leb 8192 n && leb n 8202)
    || eqb n 8232
    || eqb n 8233
    || eqb n 8239
    || eqb n 8287
    || eqb n 12288

abbrev trim_start : String → String
trim_start [] = []
trim_start (c ∷ s) = if is_whitespace c then trim_start s else c ∷ s

abbrev trim_end : String → String
trim_end [] = []
trim_end (c ∷ s) = let rest = trim_end s in if is_whitespace c && rest == [] then [] else c ∷ rest

-- `s.trim()`
unfoldable pub trim : String → String
trim s = trim_end (trim_start s)

-- `s.split(p)` for a test of characters.
unfoldable pub split_on : (Char → Bool) → String → List String
split_on p [] = List.◌∷◌ [] List.[]
split_on p (c ∷ s) =
    let pieces = split_on p s in if p c then List.◌∷◌ [] pieces else extend c pieces

-- `s.split_whitespace()`
unfoldable pub split_whitespace : String → List String
unfolding split_on
split_whitespace s = select (λ piece. not (piece == [])) (split_on is_whitespace s)

-- The digits of a `usize` of 64 bits, after those that make up the number.
unfoldable pub parse_digits : ℕ → String → Option ℕ
parse_digits n [] = some n
parse_digits n (c ∷ s) =
    let next = n * 10 + (code c - b'0') in
    let rest = parse_digits next s in
    if leb b'0' (code c) && leb (code c) b'9' && ltb next 18446744073709551616 then rest else none

-- `s.parse::<usize>()`
unfoldable pub parse_usize : String → Option ℕ
unfolding parse_digits
parse_usize [] = none
parse_usize (c ∷ []) = parse_digits 0 (c ∷ [])
parse_usize (c ∷ d ∷ s) =
    if eqb (code c) b'+' then parse_digits 0 (d ∷ s) else parse_digits 0 (c ∷ d ∷ s)
