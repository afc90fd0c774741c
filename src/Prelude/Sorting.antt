-- ===== src/Prelude/Sorting.antt =====
-- `BTreeSet<String>` and `BTreeMap<String, _>` as lists in the order of their keys, and the stable
-- sort of slices.
use Prim.Native.String.{String, compare}
use mathlib.Core.Path.{◌≡◌, refl}
use mathlib.Core.Bool.{Bool, true, false, ◌&&◌, ◌||◌}
use mathlib.Core.List.{List, [], ◌∷◌, ◌++◌, Perm}
use mathlib.Core.List.Perm
use mathlib.Core.Logic.{inl, inr}
use mathlib.Core.Option.{some}
use native.Mathlib.Omega.{arith}
use text.Mathlib.Text.{◌==◌, is_lt}
use text.Mathlib.TextEquality.{eq_iff}
use kwaai_net_map.Prelude.Tests.{if◌then◌else◌, Bool-cases}
use kwaai_net_map.Prelude.Lists.{All, any, select}
use kwaai_net_map.Prelude.Maps.{Assoc, lookup}

-- `a < b` on `str`: by code points, which is the order of the UTF-8 bytes.
abbrev pub before : String → String → Bool
before s t = is_lt (compare s t)

abbrev pub member : String → List String → Bool
member k l = any (λ j. j == k) l

unfoldable pub insert_text : String → List String → List String
insert_text k [] = k ∷ []
insert_text k (j ∷ l) =
    if j == k then j ∷ l else if before k j then k ∷ j ∷ l else j ∷ insert_text k l

-- `iter().collect::<BTreeSet<_>>()`
unfoldable pub text_set : List String → List String
unfolding insert_text
text_set [] = []
text_set (k ∷ l) = insert_text k (text_set l)

unfoldable pub insert_sorted {ℓ} : {V : Type ℓ} → String → V → Assoc V → Assoc V
insert_sorted k v [] = (k, v) ∷ []
insert_sorted k v ((j, w) ∷ m) =
    if j == k
    then (k, v) ∷ m
    else if before k j
    then (k, v) ∷ (j, w) ∷ m
    else (j, w) ∷ insert_sorted k v m

pub member-insert_text :
    (c k : String) (l : List String) → member c (insert_text k l) ≡ (k == c || member c l)
unfolding insert_text
member-insert_text c k [] = refl
member-insert_text c k (j ∷ l) =
    ground (arith, member-insert_text c k l, eq_iff j k, eq_iff j c, eq_iff k c)

pub member-text_set : (c : String) (l : List String) → member c (text_set l) ≡ member c l
unfolding text_set
member-text_set c [] = refl
member-text_set c (k ∷ l) = ground (arith, member-insert_text c k (text_set l), member-text_set c l)

pub member-append :
    (k : String) (xs ys : List String) → member k (xs ++ ys) ≡ (member k xs || member k ys)
member-append k [] ys = refl
member-append k (x ∷ xs) ys = ground (arith, member-append k xs ys)

pub member-select :
    (p : String → Bool) (k : String) (l : List String) → member k (select p l) ≡ (p k && member k l)
member-select p k [] = ground arith
member-select p k (j ∷ l) = elim (Bool-cases (j == k)) [
  | inl same ↦
      let here : j ≡ k = (eq_iff j k).0 same in
      rw here (ground (arith, member-select p k l, eq_iff k k))
  | inr other ↦ ground (arith, member-select p k l)
]

any-insert_text :
    (p : String → Bool) (k : String) (l : List String) → any p (insert_text k l) ≡ (p k || any p l)
unfolding insert_text
any-insert_text p k [] = refl
any-insert_text p k (j ∷ l) = ground (arith, any-insert_text p k l, eq_iff j k)

pub any-text_set : (p : String → Bool) (l : List String) → any p (text_set l) ≡ any p l
unfolding text_set
any-text_set p [] = refl
any-text_set p (k ∷ l) = ground (arith, any-insert_text p k (text_set l), any-text_set p l)

pub lookup-insert_sorted {ℓ} :
    {V : Type ℓ} (k j : String) (v : V) (m : Assoc V)
    → lookup j (insert_sorted k v m) ≡ (if k == j then some v else lookup j m)
unfolding lookup insert_sorted
lookup-insert_sorted k j v [] = refl
lookup-insert_sorted k j v ((i, w) ∷ m) =
    ground (arith, eq_iff k j, eq_iff i k, eq_iff i j, lookup-insert_sorted k j v m)

module _ {ℓ} {A : Type ℓ} (le : A → A → Bool) where
  -- In front of the first element that is not smaller.
  unfoldable pub place : A → List A → List A
  place x [] = x ∷ []
  place x (y ∷ l) = if le x y then x ∷ y ∷ l else y ∷ place x l

  unfoldable pub sort : List A → List A
  unfolding place
  sort [] = []
  sort (x ∷ l) = place x (sort l)

  -- Each element comes before all that follow it.
  abbrev pub IsSorted : List A → Type 0
  IsSorted [] = Unit
  IsSorted (x ∷ l) = All (λ y. le x y ≡ true) l × IsSorted l

  place-perm : (x : A) (l : List A) → Perm (place x l) (x ∷ l)
  unfolding place
  place-perm x [] = Perm.refl (x ∷ [])
  place-perm x (y ∷ l) = elim (Bool-cases (le x y)) [
    | inl first ↦ rw first (Perm.refl (x ∷ y ∷ l))
    | inr later ↦ rw later (Perm.trans (Perm.cons y (place-perm x l)) (Perm.swap x y l))
  ]

  pub sort-perm : (l : List A) → Perm (sort l) l
  unfolding sort
  sort-perm [] = Perm.refl []
  sort-perm (x ∷ l) = Perm.trans (place-perm x (sort l)) (Perm.cons x (sort-perm l))

  pub All-place {κ} : (P : A → Type κ) (x : A) (l : List A) → P x → All P l → All P (place x l)
  unfolding place
  All-place P x [] p h = (p, tt)
  All-place P x (y ∷ l) p h = elim (Bool-cases (le x y)) [
    | inl first ↦ rw first (p, h)
    | inr later ↦ rw later (h.0, All-place P x l p h.1)
  ]

  pub All-sort {κ} : (P : A → Type κ) (l : List A) → All P l → All P (sort l)
  unfolding sort
  All-sort P [] h = tt
  All-sort P (x ∷ l) h = All-place P x (sort l) h.0 (All-sort P l h.1)

  module _ (total : (x y : A) → le x y ≡ false → le y x ≡ true)
      (trans : (x y z : A) → le x y ≡ true → le y z ≡ true → le x z ≡ true) where
    All-trans :
        (x y : A) (l : List A)
        → le x y ≡ true
        → All (λ z. le y z ≡ true) l
        → All (λ z. le x z ≡ true) l
    All-trans x y [] h a = tt
    All-trans x y (z ∷ l) h a = (trans x y z h a.0, All-trans x y l h a.1)

    place-IsSorted : (x : A) (l : List A) → IsSorted l → IsSorted (place x l)
    unfolding place
    place-IsSorted x [] h = (tt, tt)
    place-IsSorted x (y ∷ l) h = elim (Bool-cases (le x y)) [
      | inl first ↦ rw first ((first, All-trans x y l first h.0), h)
      | inr later ↦
          rw later
            (All-place (λ z. le y z ≡ true) x l (total x y later) h.0, place-IsSorted x l h.1)
    ]

    pub sort-IsSorted : (l : List A) → IsSorted (sort l)
    unfolding sort
    sort-IsSorted [] = tt
    sort-IsSorted (x ∷ l) = place-IsSorted x (sort l) (sort-IsSorted l)
