-- ===== src/Assemble/Contributors.antt =====
-- The five contributors that a snapshot names.
use mathlib.Core.List.{Perm}
use mathlib.Core.List.Perm
use kwaai_net_map.Prelude.{
  ℕ, zero, suc, ◌+◌, ◌-◌, ◌≤◌, ◌<◌, Bool, true, false, List, [], ◌∷◌, ◌++◌, ◌≡◌, ◌⊎◌, inl, inr,
  refl, length, take, drop, take-append-drop, length-take-le, All, arith, Assoc, values,
}
use kwaai_net_map.Prelude.Int.{pos, ◌+ℤ◌, ◌-ℤ◌}
use kwaai_net_map.Prelude.Sorting.{sort, sort-perm, sort-IsSorted, IsSorted}
use kwaai_net_map.Snapshot.{ServerRow, ModelReport, Contributor}
use kwaai_net_map.Assemble.Best.{IsBestOf, all_candidates, best_of-IsBestOf}
use kwaai_net_map.Assemble.Ranking.{best_of, faster, candidate, top_contributors}

faster_total : (x y : Contributor) → faster x y ≡ false → faster y x ≡ true
faster_total x y h = ground arith

faster_trans : (x y z : Contributor) → faster x y ≡ true → faster y z ≡ true → faster x z ≡ true
faster_trans x y z h k = ground arith

take_full : (n : ℕ) (l : List Contributor) → (length (take n l) ≡ n) ⊎ (drop n l ≡ [])
take_full zero l = inl refl
take_full (suc n) [] = inr refl
take_full (suc n) (c ∷ l) = elim (take_full n l) [
  | inl full ↦ inl (omega (arith, full))
  | inr rest ↦ inr rest
]

module _ {A : Type 0} (le : A → A → Bool) where
  All-take : (P : A → Type 0) (n : ℕ) (l : List A) → All P l → All P (take n l)
  All-take P zero l h = tt
  All-take P (suc n) [] h = tt
  All-take P (suc n) (x ∷ l) h = (h.0, All-take P n l h.1)

  All-drop : (P : A → Type 0) (n : ℕ) (l : List A) → All P l → All P (drop n l)
  All-drop P zero l h = h
  All-drop P (suc n) [] h = tt
  All-drop P (suc n) (x ∷ l) h = All-drop P n l h.1

  -- Each of the first elements of a sorted list comes before each of the others.
  take-drop-IsSorted :
      (n : ℕ) (l : List A)
      → IsSorted le l
      → IsSorted le (take n l) × All (λ x. All (λ y. le x y ≡ true) (drop n l)) (take n l)
  take-drop-IsSorted zero l h = (tt, tt)
  take-drop-IsSorted (suc n) [] h = (tt, tt)
  take-drop-IsSorted (suc n) (x ∷ l) (first, rest) =
      let (sorted, split) = take-drop-IsSorted n l rest in
      (
        (All-take (λ y. le x y ≡ true) n l first, sorted),
        (All-drop (λ y. le x y ≡ true) n l first, split),
      )

module _ (into_values : Assoc Contributor → List Contributor)
    (same_values : (best : Assoc Contributor) → Perm (into_values best) (values best)) where
  -- If the hash map of the peers' best rows yields its values in some order, each once, then whatever
  -- that order is, at most five contributors are named, in descending order of throughput (as
  -- `total_cmp` orders), and together with some others they are the values of that map. None of the
  -- others comes before any of the named, and if fewer than five are named there are no others. The
  -- map has one entry for each peer that has a row: it is one of the peer's rows in some report, and
  -- none of the peer's rows has a greater throughput.
  pub top_contributors_lem :
      (reports : List ModelReport)
      → IsBestOf (all_candidates reports) (best_of reports [])
        × (others : List Contributor) × Perm
            (top_contributors into_values reports ++ others)
            (values (best_of reports []))
        × (length (top_contributors into_values reports) ≤ 5)
        × ((length (top_contributors into_values reports) ≡ 5) ⊎ (others ≡ []))
        × IsSorted faster (top_contributors into_values reports)
        × All (λ c. All (λ o. faster c o ≡ true) others) (top_contributors into_values reports)
  unfolding top_contributors
  top_contributors_lem reports =
      let all = into_values (best_of reports []) in
      let (sorted, split) =
        take-drop-IsSorted faster 5 (sort faster all)
          (sort-IsSorted faster faster_total faster_trans all) in
      (
        best_of-IsBestOf reports,
        drop 5 (sort faster all),
        rw (take-append-drop 5 (sort faster all))
            (Perm.trans (sort-perm faster all) (same_values (best_of reports []))),
        length-take-le 5 (sort faster all),
        take_full 5 (sort faster all),
        sorted,
        split,
      )

-- The row's block count, against the half-open range that it announces: one too many.
pub blocks-candidate :
    (row : ServerRow) (start end : ℕ)
    → row.span.start ≡ pos start
    → row.span.end ≡ pos end
    → start ≤ end
    → end < 9223372036854775807
    → (candidate row).blocks ≡ pos ((end - start) + 1)
unfolding candidate ◌+ℤ◌ ◌-ℤ◌
blocks-candidate row start end hs he h k = rw (hs, he) (ground arith)
