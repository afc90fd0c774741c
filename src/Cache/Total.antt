-- ===== src/Cache/Total.antt =====
-- The number of blocks that `NodeCache::stats` measures coverage against.
use Prim.Native.Nat.{max}
use kwaai_net_map.Prelude.{
  ap, ◌∙◌, if◌then◌else◌, ℕ, ◌≤◌, ◌<◌, Bool, false, not, leb, inl, inr, Bool-cases, ◌||◌, ◌&&◌, ◌≡◌,
  true, none, List, [], ◌∷◌, eqb, ltb, unwrap_or, any, All, arith, refl,
}
use kwaai_net_map.Prelude.Int.{pos_part}
use kwaai_net_map.Snapshot.{ModelReport}
use kwaai_net_map.Cache.{largest, total_of}

-- The size of a model, 0 for a negative count.
abbrev pub size : ModelReport → ℕ
size m = pos_part m.num_blocks

All-size_le :
    (n k : ℕ) (reports : List ModelReport)
    → n ≤ k
    → All (λ m. size m ≤ n) reports
    → All (λ m. size m ≤ k) reports
All-size_le n k [] le h = tt
All-size_le n k (m ∷ reports) le h = (omega (arith, h.0), All-size_le n k reports le h.1)

largest_bounds :
    (reports : List ModelReport) → All (λ m. size m ≤ unwrap_or (largest reports) 0) reports
unfolding largest
largest_bounds [] = tt
largest_bounds (m ∷ reports) = (
  ground arith,
  All-size_le (unwrap_or (largest reports) 0) _ reports (ground arith) (largest_bounds reports),
)

max_right : (a b : ℕ) → a ≤ b → max a b ≡ b
max_right a b h = ground arith

max_left : (a b : ℕ) → b < a → max a b ≡ a
max_left a b h = ground arith

-- Some model has the size.
abbrev pub has_size : ℕ → List ModelReport → Bool
has_size n reports = any (λ m. eqb (size m) n) reports

largest_attained :
    (reports : List ModelReport)
    → (has_size (unwrap_or (largest reports) 0) reports || eqb (unwrap_or (largest reports) 0) 0)
      ≡ true
unfolding largest
largest_attained [] = ground arith
largest_attained (m ∷ reports) =
    let n = unwrap_or (largest reports) 0 in
    elim (Bool-cases (leb (size m) n)) [
      | inl le ↦
          ap (λ k. has_size k (m ∷ reports) || eqb k 0) (max_right (size m) n (ground arith))
          ∙ ground (arith, largest_attained reports)
      | inr gt ↦
          ap (λ k. has_size k (m ∷ reports) || eqb k 0) (max_left (size m) n (ground arith))
          ∙ ground arith
    ]

nothing_above :
    (reports : List ModelReport)
    → All (λ m. size m ≤ 0) reports
    → any (λ m. ltb 0 (size m)) reports ≡ false
nothing_above [] h = refl
nothing_above (m ∷ reports) h = ground (arith, h.0, nothing_above reports h.1)

total_by_largest :
    (reports : List ModelReport)
    → total_of none reports
      ≡ (if eqb (unwrap_or (largest reports) 0) 0 then 80 else unwrap_or (largest reports) 0)
unfolding total_of
total_by_largest reports = ground arith

-- Without a configured total, coverage is measured against a number that no model's size exceeds:
-- it is the size of some model, or no model has a positive size and it is 80.
pub total_of_lem :
    (reports : List ModelReport)
    → All (λ m. size m ≤ total_of none reports) reports
      × ((has_size (total_of none reports) reports
            || (eqb (total_of none reports) 80 && not (any (λ m. ltb 0 (size m)) reports)))
          ≡ true)
total_of_lem reports =
    let bounds = largest_bounds reports in
    elim (Bool-cases (eqb (unwrap_or (largest reports) 0) 0)) [
      | inl none_sized ↦
          let total : total_of none reports ≡ 80 = ground (arith, total_by_largest reports) in
          let flat = All-size_le (unwrap_or (largest reports) 0) 0 reports (ground arith) bounds in
          (
            rw total (All-size_le (unwrap_or (largest reports) 0) 80 reports (ground arith) bounds),
            rw total (ground (arith, nothing_above reports flat)),
          )
      | inr sized ↦
          let total : total_of none reports ≡ unwrap_or (largest reports) 0 =
            ground (arith, total_by_largest reports) in
          (rw total bounds, rw total (ground (arith, largest_attained reports)))
    ]
