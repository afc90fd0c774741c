-- ===== src/Text/Pieces.antt =====
-- The pieces of a text around the characters that pass a test, and prefixes of joined texts.
use Prim.Native.Char.{Char, code}
use Prim.Native.String.{[], ◌∷◌}
use text.Mathlib.TextLemmas.{nil-append, cons-append}
use kwaai_net_map.Prelude.{
  String, Bool, true, false, not, ◌&&◌, some, none, List, ◌≡◌, refl, if◌then◌else◌, eqb, arith,
}
use kwaai_net_map.Text.{append, strip_prefix, split_on}

-- No character passes the test.
abbrev pub lacks : (Char → Bool) → String → Bool
lacks p [] = true
lacks p (c ∷ s) = not (p c) && lacks p s

pub split_on-append :
    (p : Char → Bool) (w : String) (c : Char) (s : String)
    → lacks p w ≡ true
    → p c ≡ true
    → split_on p (append w (c ∷ s)) ≡ List.◌∷◌ w (split_on p s)
unfolding split_on
split_on-append p [] c s free at_c = ground (arith, nil-append (c ∷ s))
split_on-append p (d ∷ w) c s free at_c =
    ground (arith, cons-append d w (c ∷ s), split_on-append p w c s)

pub split_on-lacks :
    (p : Char → Bool) (w : String) → lacks p w ≡ true → split_on p w ≡ List.◌∷◌ w List.[]
unfolding split_on
split_on-lacks p [] free = refl
split_on-lacks p (d ∷ w) free = ground (arith, split_on-lacks p w)

pub lacks-append :
    (p : Char → Bool) (s t : String) → lacks p (append s t) ≡ (lacks p s && lacks p t)
lacks-append p [] t = ground (arith, nil-append t)
lacks-append p (c ∷ s) t = ground (arith, cons-append c s t, lacks-append p s t)

pub strip_prefix-append : (p s : String) → strip_prefix p (append p s) ≡ some s
unfolding strip_prefix
strip_prefix-append [] s = ground (arith, nil-append s)
strip_prefix-append (c ∷ p) s = ground (arith, cons-append c p s, strip_prefix-append p s)

-- The two differ at some character that both have.
abbrev pub differs : String → String → Bool
differs [] q = false
differs (c ∷ p) [] = false
differs (c ∷ p) (d ∷ q) = if eqb (code c) (code d) then differs p q else true

pub strip_prefix-differs :
    (p q s : String) → differs p q ≡ true → strip_prefix p (append q s) ≡ none
unfolding strip_prefix
strip_prefix-differs [] q s h = cc
strip_prefix-differs (c ∷ p) [] s h = cc
strip_prefix-differs (c ∷ p) (d ∷ q) s h =
    ground (arith, cons-append d q s, strip_prefix-differs p q s)
