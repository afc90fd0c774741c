-- ===== src/Assemble/Shuffles.antt =====
-- Steps of the loop over a model's peers that can be swapped: `build_snapshot` of
-- map-server/src/crawler.rs.
pub mod Same
pub mod Rounds
pub mod Order
pub mod Blocks
pub mod Lookups
pub mod Whole
pub mod Maps
use kwaai_net_map.Prelude.{
  ℕ, String, Bool, true, false, not, ◌&&◌, ◌||◌, List, [], ◌∷◌, ◌++◌, ◌≡◌, refl, ap, sym, ◌∙◌, ◌==◌,
  eq_iff, arith, Assoc, Bool-cases, inl, inr, if◌then◌else◌,
}
use kwaai_net_map.Prelude.Sorting.{before, place, sort, insert_sorted}
use kwaai_net_map.Prelude.Order.{before_irrefl, before_trans, before_total}
use kwaai_net_map.Prelude.Sets.{insert_nat, extend_nat}
use kwaai_net_map.Prelude.Int.{ltb_ℤ, eqb_ℤ}
use kwaai_net_map.Snapshot.{ServerRow}
use kwaai_net_map.Assemble.Build.{row_le}

before_asym : (s t : String) → before s t ≡ true → before t s ≡ false
before_asym s t h = ground (arith, before_trans s t s h, before_irrefl s)

before_between : (s t u : String) → before s u ≡ true → before s t ≡ false → before t u ≡ true
before_between s t u h k = elim (Bool-cases (s == t)) [
  | inl same ↦ rw (sym ((eq_iff s t).0 same)) h
  | inr other ↦ before_trans t s u (before_total s t other k) h
]

row_le_total : (a b : ServerRow) → row_le a b ≡ false → row_le b a ≡ true
unfolding row_le
row_le_total a b h = ground (arith, before_asym b.peer_id a.peer_id)

row_le_trans : (a b c : ServerRow) → row_le a b ≡ true → row_le b c ≡ true → row_le a c ≡ true
unfolding row_le
row_le_trans a b c h k = ground (arith, before_between c.peer_id b.peer_id a.peer_id)

row_le_strict :
    (a b : ServerRow) → (a.peer_id == b.peer_id) ≡ false → row_le a b ≡ true → row_le b a ≡ false
unfolding row_le
row_le_strict a b ne h =
    ground (arith, before_total a.peer_id b.peer_id ne, before_total b.peer_id a.peer_id)

place-place :
    (x y : ServerRow) (l : List ServerRow)
    → (x.peer_id == y.peer_id) ≡ false
    → place row_le x (place row_le y l) ≡ place row_le y (place row_le x l)
unfolding place
place-place x y [] ne = ground (arith, row_le_strict x y ne, row_le_total x y)
place-place x y (z ∷ l) ne = ground (
  arith,
  row_le_strict x y ne,
  row_le_total x y,
  row_le_trans x y z,
  row_le_trans y x z,
  place-place x y l ne,
)

insert_nat-insert_nat :
    (a b : ℕ) (s : List ℕ) → insert_nat a (insert_nat b s) ≡ insert_nat b (insert_nat a s)
unfolding insert_nat
insert_nat-insert_nat a b [] = ground arith
insert_nat-insert_nat a b (c ∷ s) = ground (arith, insert_nat-insert_nat a b s)

extend_nat-insert_nat :
    (b : ℕ) (l ys : List ℕ) → extend_nat (insert_nat b l) ys ≡ insert_nat b (extend_nat l ys)
unfolding extend_nat
extend_nat-insert_nat b l [] = refl
extend_nat-insert_nat b l (y ∷ ys) =
    ap (λ m. extend_nat m ys) (insert_nat-insert_nat y b l)
    ∙ extend_nat-insert_nat b (insert_nat y l) ys

pub extend_nat-extend_nat :
    (l xs ys : List ℕ) → extend_nat (extend_nat l xs) ys ≡ extend_nat (extend_nat l ys) xs
unfolding extend_nat
extend_nat-extend_nat l [] ys = refl
extend_nat-extend_nat l (b ∷ xs) ys =
    extend_nat-extend_nat (insert_nat b l) xs ys
    ∙ ap (λ m. extend_nat m xs) (extend_nat-insert_nat b l ys)

pub insert_sorted-insert_sorted :
    (j k : String) (a b : String) (m : Assoc String)
    → (j == k) ≡ false
    → insert_sorted j a (insert_sorted k b m) ≡ insert_sorted k b (insert_sorted j a m)
unfolding insert_sorted
insert_sorted-insert_sorted j k a b [] ne =
    ground (arith, eq_iff k j, eq_iff j k, before_total j k ne, before_asym j k)
insert_sorted-insert_sorted j k a b ((i, w) ∷ m) ne = ground (
  arith,
  eq_iff k j,
  eq_iff j k,
  eq_iff i j,
  eq_iff i k,
  before_total j k ne,
  before_asym j k,
  before_trans j k i,
  before_trans k j i,
  before_irrefl i,
  insert_sorted-insert_sorted j k a b m ne,
)

pub sort-swap :
    (xs : List ServerRow) (a b : ServerRow) (more : List ServerRow)
    → (a.peer_id == b.peer_id) ≡ false
    → sort row_le (xs ++ a ∷ b ∷ more) ≡ sort row_le (xs ++ b ∷ a ∷ more)
unfolding sort
sort-swap [] a b more ne = place-place a b (sort row_le more) ne
sort-swap (x ∷ xs) a b more ne = ap (place row_le x) (sort-swap xs a b more ne)
