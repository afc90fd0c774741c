-- ===== src/Prelude/Order.antt =====
-- The order of strings is strict and total, and what keys in ascending order give.
use Prim.Native.Char.{Char, code}
use Prim.Native.String.{String, [], ◌∷◌}
use Prim.Native.String.compare
use mathlib.Core.Path.{◌≡◌}
use mathlib.Core.Bool.{true, false, ◌&&◌, ◌||◌}
use mathlib.Core.List.{List}
use mathlib.Core.Logic.{inl, inr}
use mathlib.Core.Option.{some}
use native.Mathlib.Omega.{arith}
use text.Mathlib.Text.{◌==◌}
use text.Mathlib.TextEquality.{eq_iff}
use text.Mathlib.TextPositions.{eq_refl}
use kwaai_net_map.Prelude.Tests.{Bool-cases, ltb, eqb}
use kwaai_net_map.Prelude.Lists.{All}
use kwaai_net_map.Prelude.Maps.{Assoc, keys, lookup}
use kwaai_net_map.Prelude.Sorting.{before, IsSorted, insert_text, text_set}

before_cons :
    (c d : Char) (s t : String)
    → before (c ∷ s) (d ∷ t) ≡ (ltb (code c) (code d) || (eqb (code c) (code d) && before s t))
before_cons c d s t = ground (arith, compare.cons-cons c d s t)

pub before_irrefl : (s : String) → before s s ≡ false
before_irrefl s = ground (arith, eq_refl s)

pub before_trans : (s t u : String) → before s t ≡ true → before t u ≡ true → before s u ≡ true
before_trans [] [] u h k = k
before_trans [] (d ∷ t) [] h k = ground (arith, compare.cons-nil d t)
before_trans [] (d ∷ t) (e ∷ u) h k = ground (arith, compare.nil-cons e u)
before_trans (c ∷ s) [] u h k = ground (arith, compare.cons-nil c s)
before_trans (c ∷ s) (d ∷ t) [] h k = ground (arith, compare.cons-nil d t)
before_trans (c ∷ s) (d ∷ t) (e ∷ u) h k =
    ground
      (arith, before_cons c d s t, before_cons d e t u, before_cons c e s u, before_trans s t u)

pub before_total : (s t : String) → (s == t) ≡ false → before s t ≡ false → before t s ≡ true
before_total [] [] ne h = cc
before_total [] (d ∷ t) ne h = ground (arith, compare.nil-cons d t)
before_total (c ∷ s) [] ne h = ground (arith, compare.nil-cons c s)
before_total (c ∷ s) (d ∷ t) ne h =
    ground
      (arith, before_cons c d s t, before_cons d c t s, compare.cons-cons c d s t, before_total s t)

pub All-before :
    (j k : String) (l : List String)
    → before j k ≡ true
    → All (λ i. before k i ≡ true) l
    → All (λ i. before j i ≡ true) l
All-before j k List.[] h a = tt
All-before j k (List.◌∷◌ i l) h a = (before_trans j k i h a.0, All-before j k l h a.1)

-- A map whose keys ascend has each entry under its key.
pub All-lookup {ℓ} :
    {V : Type ℓ} (m : Assoc V)
    → IsSorted before (keys m)
    → All (λ (e : String × V). lookup e.0 m ≡ some e.1) m
unfolding lookup
All-lookup List.[] h = tt
All-lookup {V} (List.◌∷◌ (k, v) m) h = (ground (arith, eq_refl k), later m h.0 (All-lookup m h.1))
  where
    later :
        (rest : Assoc V)
        → All (λ j. before k j ≡ true) (keys rest)
        → All (λ (e : String × V). lookup e.0 m ≡ some e.1) rest
        → All (λ (e : String × V). lookup e.0 (List.◌∷◌ (k, v) m) ≡ some e.1) rest
    later List.[] a h' = tt
    later (List.◌∷◌ (j, w) rest) a h' =
        (ground (arith, before_irrefl k, eq_iff k j, a.0, h'.0), later rest a.1 h'.1)

pub All-insert_text :
    (P : String → Type 0) (k : String) (l : List String) → P k → All P l → All P (insert_text k l)
unfolding insert_text
All-insert_text P k List.[] p h = (p, tt)
All-insert_text P k (List.◌∷◌ j l) p h = elim (Bool-cases (j == k)) [
  | inl same ↦ rw same h
  | inr other ↦ elim (Bool-cases (before k j)) [
    | inl first ↦ rw (other, first) (p, h)
    | inr later ↦ rw (other, later) (h.0, All-insert_text P k l p h.1)
  ]
]

insert_text-IsSorted :
    (k : String) (l : List String) → IsSorted before l → IsSorted before (insert_text k l)
unfolding insert_text
insert_text-IsSorted k List.[] h = (tt, tt)
insert_text-IsSorted k (List.◌∷◌ j l) h = elim (Bool-cases (j == k)) [
  | inl same ↦ rw same h
  | inr other ↦ elim (Bool-cases (before k j)) [
    | inl first ↦ rw (other, first) ((first, All-before k j l first h.0), h)
    | inr later ↦
        let ahead : before j k ≡ true =
          before_total k j (ground (arith, eq_iff k j, eq_iff j k)) later in
        rw (other, later)
          (All-insert_text (λ i. before j i ≡ true) k l ahead h.0, insert_text-IsSorted k l h.1)
  ]
]

-- A set's elements ascend, so that none is there twice.
pub text_set-IsSorted : (l : List String) → IsSorted before (text_set l)
unfolding text_set
text_set-IsSorted List.[] = tt
text_set-IsSorted (List.◌∷◌ k l) = insert_text-IsSorted k (text_set l) (text_set-IsSorted l)
