-- ===== src/Prelude/TextSets.antt =====
-- Sets of text as ascending lists: a set is known by its elements.
use Prim.Native.String.{String}
use mathlib.Core.Path.{◌≡◌, refl, sym, ◌∙◌, ap₂}
use mathlib.Core.Bool.{true, false}
use mathlib.Core.Logic.{inl, inr}
use mathlib.Core.List.{List, [], ◌∷◌}
use native.Mathlib.Omega.{arith}
use text.Mathlib.Text.{◌==◌}
use text.Mathlib.TextEquality.{eq_iff}
use text.Mathlib.TextPositions.{eq_refl}
use kwaai_net_map.Prelude.Tests.{Bool-cases}
use kwaai_net_map.Prelude.Lists.{All}
use kwaai_net_map.Prelude.Sorting.{before, member, text_set, member-text_set, IsSorted}
use kwaai_net_map.Prelude.Order.{before_irrefl, before_trans, text_set-IsSorted}

after_head :
    (x k : String) (l : List String)
    → All (λ j. before x j ≡ true) l
    → member k l ≡ true
    → before x k ≡ true
after_head x k [] h e = cc
after_head x k (j ∷ l) h e = ground (arith, after_head x k l h.1, h.0, eq_iff j k)

not_member : (x : String) (l : List String) → All (λ j. before x j ≡ true) l → member x l ≡ false
not_member x l h = elim (Bool-cases (member x l)) [
  | inl there ↦ absurd (ground (arith, after_head x x l h there, before_irrefl x))
  | inr absent ↦ absent
]

same_heads :
    (x y : String) (l m : List String)
    → IsSorted before (x ∷ l)
    → IsSorted before (y ∷ m)
    → ((k : String) → member k (x ∷ l) ≡ member k (y ∷ m))
    → x ≡ y
same_heads x y l m h k agree = elim (Bool-cases (x == y)) [
  | inl equal ↦ (eq_iff x y).0 equal
  | inr other ↦ absurd (
      ground (
        arith,
        agree x,
        agree y,
        eq_refl x,
        eq_refl y,
        eq_iff x y,
        eq_iff y x,
        after_head x y l h.0,
        after_head y x m k.0,
        before_trans x y x,
        before_irrefl x,
      ))
]

sorted_unique :
    (l m : List String)
    → IsSorted before l
    → IsSorted before m
    → ((k : String) → member k l ≡ member k m)
    → l ≡ m
sorted_unique [] [] h k agree = refl
sorted_unique [] (y ∷ m) h k agree = absurd (ground (arith, agree y, eq_refl y))
sorted_unique (x ∷ l) [] h k agree = absurd (ground (arith, agree x, eq_refl x))
sorted_unique (x ∷ l) (y ∷ m) h k agree =
    let head = same_heads x y l m h k agree in
    let tail : (i : String) → member i l ≡ member i m = λ i.
      ground
        (arith, agree i, head, eq_iff x i, eq_iff y i, not_member x l h.0, not_member y m k.0) in
    ap₂ ◌∷◌ head (sorted_unique l m h.1 k.1 tail)

-- A set is known by its elements.
pub text_set_ext :
    (l m : List String) → ((k : String) → member k l ≡ member k m) → text_set l ≡ text_set m
text_set_ext l m agree =
    sorted_unique (text_set l) (text_set m) (text_set-IsSorted l) (text_set-IsSorted m)
      (λ k. member-text_set k l ∙ agree k ∙ sym (member-text_set k m))
