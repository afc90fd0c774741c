-- ===== src/Assemble/Shuffles/Rounds.antt =====
-- One round of the loop over a model's peers, on tallies that differ in the order of their rows.
use mathlib.Core.List.{append_assoc}
use kwaai_net_map.Prelude.{
  ℕ, String, false, none, some, lookup, if◌then◌else◌, List, [], ◌∷◌, ◌++◌, ◌≡◌, ap, sym, ◌∙◌, ◌==◌,
  arith, Assoc, Option-cases, inl, inr,
}
use kwaai_net_map.Prelude.Sorting.{insert_sorted, sort}
use kwaai_net_map.Prelude.Sets.{extend_nat}
use kwaai_net_map.Snapshot.{ServerRow}
use kwaai_net_map.Assemble.{PeerModelEntry, is_online}
use kwaai_net_map.Assemble.Build.{Tally, row_le}
use kwaai_net_map.Assemble.Shuffles.Same.{IsSame}
use kwaai_net_map.Assemble.Shuffles.{extend_nat-extend_nat, insert_sorted-insert_sorted, sort-swap}

abbrev pub marked : PeerModelEntry → List ℕ → List ℕ
marked entry covered = if is_online entry.info then extend_nat covered entry.blocks else covered

marked-marked : (e f : PeerModelEntry) (l : List ℕ) → marked e (marked f l) ≡ marked f (marked e l)
marked-marked e f l = ground (arith, extend_nat-extend_nat l e.blocks f.blocks)

module _ (dial_errors : Assoc String) where
  abbrev pub noted : String → PeerModelEntry → Assoc String → Assoc String
  noted id entry issues =
      if is_online entry.info
      then (elim (lookup id dial_errors) [ none ↦ issues | some err ↦ insert_sorted id err issues ])
      else issues

  abbrev pub after : String → PeerModelEntry → ServerRow → Tally → Tally
  after id entry row t = record {
    covered = marked entry t.covered;
    issues = noted id entry t.issues;
    server_rows = t.server_rows ++ row ∷ [];
  }

  pub IsSame-after :
      (id : String) (entry : PeerModelEntry) (row : ServerRow) (t u : Tally)
      → IsSame t u
      → IsSame (after id entry row t) (after id entry row u)
  IsSame-after id entry row t u h = record {
    covered = ap (marked entry) h.covered;
    issues = ap (noted id entry) h.issues;
    rows = λ more.
        ap (sort row_le) (append_assoc t.server_rows (row ∷ []) more)
        ∙ h.rows (row ∷ more)
        ∙ ap (sort row_le) (sym (append_assoc u.server_rows (row ∷ []) more));
  }

  noted-noted :
      (j k : String) (e f : PeerModelEntry) (m : Assoc String)
      → (j == k) ≡ false
      → noted j e (noted k f m) ≡ noted k f (noted j e m)
  noted-noted j k e f m ne = elim (Option-cases (lookup j dial_errors)) [
    | inl none_j ↦ rw none_j (ground arith)
    | inr (a, at_j) ↦ elim (Option-cases (lookup k dial_errors)) [
      | inl none_k ↦ rw (at_j, none_k) (ground arith)
      | inr (b, at_k) ↦ rw (at_j, at_k) (ground (arith, insert_sorted-insert_sorted j k a b m ne))
    ]
  ]

  pub IsSame-swap :
      (j k : String) (e f : PeerModelEntry) (r s : ServerRow) (t : Tally)
      → (j == k) ≡ false
      → (r.peer_id == s.peer_id) ≡ false
      → IsSame (after k f s (after j e r t)) (after j e r (after k f s t))
  IsSame-swap j k e f r s t ne apart = record {
    covered = marked-marked f e t.covered;
    issues = sym (noted-noted j k e f t.issues ne);
    rows = λ more.
        ap (sort row_le) (two t.server_rows r s more)
        ∙ sort-swap t.server_rows r s more apart
        ∙ ap (sort row_le) (sym (two t.server_rows s r more));
  }
    where
      two :
          (xs : List ServerRow) (a b : ServerRow) (more : List ServerRow)
          → ((xs ++ a ∷ []) ++ b ∷ []) ++ more ≡ xs ++ a ∷ b ∷ more
      two xs a b more =
          append_assoc (xs ++ a ∷ []) (b ∷ []) more ∙ append_assoc xs (a ∷ []) (b ∷ more)
