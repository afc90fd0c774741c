-- ===== src/Cache/Coverage.antt =====
-- What the coverage of `NodeCache::stats` counts.
use Prim.Native.Nat.{min}
use kwaai_net_map.Prelude.{
  ℕ, zero, suc, ◌<◌, Bool, false, List, [], ◌∷◌, ◌≡◌, refl, ap, ◌∙◌, ◌&&◌, ◌||◌, ◌==◌, any, ltb,
  leb, arith, count_if, replicate, count_below, Bool-cases, inl, inr,
}
use kwaai_net_map.Prelude.Int.{pos_part}
use kwaai_net_map.Snapshot.{ServerRow, ModelReport}
use kwaai_net_map.Cache.{mark_range, mark_row, mark_rows, mark_reports, covered_count}

-- The row's server says that it is online and that its half-open range holds the block.
abbrev pub serves : ℕ → ServerRow → Bool
serves block row =
    row.state == "online"
    && (leb (pos_part row.span.start) block && ltb block (pos_part row.span.end))

-- Some row of some model serves the block number.
abbrev pub is_served : List ModelReport → ℕ → Bool
is_served reports block = any (λ m. any (serves block) m.server_rows) reports

-- The slots whose numbers pass the test.
tabulate : ℕ → (ℕ → Bool) → List Bool
tabulate zero p = []
tabulate (suc n) p = p 0 ∷ tabulate n (λ b. p (suc b))

tabulate_ext :
    (n : ℕ) (p q : ℕ → Bool) → ((b : ℕ) → b < n → p b ≡ q b) → tabulate n p ≡ tabulate n q
unfolding tabulate
tabulate_ext zero p q h = refl
tabulate_ext (suc n) p q h = cc (
  h 0 (omega arith),
  tabulate_ext n (λ b. p (suc b)) (λ b. q (suc b)) (λ b lt. h (suc b) (omega arith)),
)

replicate-eq-tabulate : (n : ℕ) → replicate n false ≡ tabulate n (λ b. false)
unfolding tabulate
replicate-eq-tabulate zero = refl
replicate-eq-tabulate (suc n) = ap (◌∷◌ false) (replicate-eq-tabulate n)

count_if-tabulate : (n : ℕ) (p : ℕ → Bool) → count_if (λ c. c) (tabulate n p) ≡ count_below n p
unfolding tabulate
count_if-tabulate zero p = refl
count_if-tabulate (suc n) p = ground (arith, count_if-tabulate n (λ b. p (suc b)))

mark_range-tabulate :
    (start end n : ℕ) (p : ℕ → Bool)
    → mark_range start end (tabulate n p) ≡ tabulate n (λ b. p b || (leb start b && ltb b end))
unfolding mark_range tabulate
mark_range-tabulate start zero n p = tabulate_ext n _ _ (λ b lt. ground arith)
mark_range-tabulate start (suc end) zero p = refl
mark_range-tabulate zero (suc end) (suc n) p =
    let rest = mark_range-tabulate zero end n (λ b. p (suc b)) in
    let same : tabulate n (λ b. p (suc b) || (leb 0 b && ltb b end))
        ≡ tabulate n (λ b. p (suc b) || (leb 0 (suc b) && ltb (suc b) (suc end))) =
      tabulate_ext n _ _ (λ b lt. ground arith) in
    ground (arith, rest, same)
mark_range-tabulate (suc start) (suc end) (suc n) p =
    let rest = mark_range-tabulate start end n (λ b. p (suc b)) in
    let same : tabulate n (λ b. p (suc b) || (leb start b && ltb b end))
        ≡ tabulate n (λ b. p (suc b) || (leb (suc start) (suc b) && ltb (suc b) (suc end))) =
      tabulate_ext n _ _ (λ b lt. ground arith) in
    ground (arith, rest, same)

or_assoc : (x y z : Bool) → ((x || y) || z) ≡ (x || (y || z))
or_assoc x y z = ground arith

below_min : (b e n : ℕ) → b < n → ltb b (min e n) ≡ ltb b e
below_min b e n h = ground arith

mark_row-tabulate :
    (n : ℕ) (row : ServerRow) (p : ℕ → Bool)
    → mark_row n row (tabulate n p) ≡ tabulate n (λ b. p b || serves b row)
unfolding mark_row
mark_row-tabulate n row p = elim (Bool-cases (row.state == "online")) [
  | inl online ↦ rw online (
      mark_range-tabulate (pos_part row.span.start) (min (pos_part row.span.end) n) n p
      ∙ tabulate_ext n _ _ (λ b lt. ground (arith, below_min b (pos_part row.span.end) n lt)))
  | inr offline ↦ rw offline (tabulate_ext n _ _ (λ b lt. ground arith))
]

mark_rows-tabulate :
    (n : ℕ) (rows : List ServerRow) (p : ℕ → Bool)
    → mark_rows n rows (tabulate n p) ≡ tabulate n (λ b. p b || any (serves b) rows)
unfolding mark_rows
mark_rows-tabulate n [] p = tabulate_ext n _ _ (λ b lt. ground arith)
mark_rows-tabulate n (row ∷ rows) p =
    ap (mark_rows n rows) (mark_row-tabulate n row p)
    ∙ mark_rows-tabulate n rows (λ b. p b || serves b row)
    ∙ tabulate_ext n _ _ (λ b lt. or_assoc (p b) (serves b row) (any (serves b) rows))

mark_reports-tabulate :
    (n : ℕ) (reports : List ModelReport) (p : ℕ → Bool)
    → mark_reports n reports (tabulate n p) ≡ tabulate n (λ b. p b || is_served reports b)
unfolding mark_reports
mark_reports-tabulate n [] p = tabulate_ext n _ _ (λ b lt. ground arith)
mark_reports-tabulate n (m ∷ reports) p =
    ap (mark_reports n reports) (mark_rows-tabulate n m.server_rows p)
    ∙ mark_reports-tabulate n reports (λ b. p b || any (serves b) m.server_rows)
    ∙ tabulate_ext n _ _
        (λ b lt. or_assoc (p b) (any (serves b) m.server_rows) (is_served reports b))

-- The covered count is the number of block numbers below the total for which some row, of any
-- model, is online with a half-open range that holds the number; negative bounds read as 0.
pub covered_count-eq-count_below :
    (total : ℕ) (reports : List ModelReport)
    → covered_count total reports ≡ count_below total (is_served reports)
unfolding covered_count
covered_count-eq-count_below total reports =
    ap (λ l. count_if (λ c. c) (mark_reports total reports l)) (replicate-eq-tabulate total)
    ∙ ap (count_if (λ c. c)) (mark_reports-tabulate total reports (λ b. false))
    ∙ count_if-tabulate total (λ b. false || is_served reports b)
