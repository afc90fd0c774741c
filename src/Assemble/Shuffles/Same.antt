-- ===== src/Assemble/Shuffles/Same.antt =====
-- Tallies that differ in the order of their rows only.
use mathlib.Core.List.{append-nil}
use kwaai_net_map.Prelude.{
  ℕ, map_option, ap, sym, String, Option, none, some, List, [], ◌++◌, ◌≡◌, refl, ◌∙◌, Assoc,
}
use kwaai_net_map.Prelude.Sorting.{sort}
use kwaai_net_map.Snapshot.{ServerRow, ModelReport}
use kwaai_net_map.Assemble.{Model}
use kwaai_net_map.Assemble.Build.{Tally, row_le, report_of}

-- The same, but for the order of the rows so far.
pub record IsSame (t u : Tally) : Type 0 where
  pub covered : t.covered ≡ u.covered
  pub issues : t.issues ≡ u.issues
  pub rows :
      (more : List ServerRow)
      → sort row_le (t.server_rows ++ more) ≡ sort row_le (u.server_rows ++ more)

abbrev pub IsSameOption : Option Tally → Option Tally → Type 0
IsSameOption none none = Unit
IsSameOption none (some u) = ⊥
IsSameOption (some t) none = ⊥
IsSameOption (some t) (some u) = IsSame t u

IsSame-trans : (t u v : Tally) → IsSame t u → IsSame u v → IsSame t v
IsSame-trans t u v h k = record {
  covered = h.covered ∙ k.covered;
  issues = h.issues ∙ k.issues;
  rows = λ more. h.rows more ∙ k.rows more;
}

pub IsSameOption-trans :
    (o p q : Option Tally) → IsSameOption o p → IsSameOption p q → IsSameOption o q
IsSameOption-trans none none q h k = k
IsSameOption-trans none (some u) q h k = absurd h
IsSameOption-trans (some t) none q h k = absurd h
IsSameOption-trans (some t) (some u) none h k = absurd k
IsSameOption-trans (some t) (some u) (some v) h k = IsSame-trans t u v h k

pub IsSame-refl : (t : Tally) → IsSame t t
IsSame-refl t = record { covered = refl; issues = refl; rows = λ more. refl }

-- What the loop over a model's peers leaves: the report, the blocks and the issues.
abbrev pub left : Model → Tally → ModelReport × List ℕ × Assoc String
left model t = (report_of model t, t.covered, t.issues)

IsSame-left : (model : Model) (t u : Tally) → IsSame t u → left model t ≡ left model u
unfolding report_of
IsSame-left model t u h =
    let sorted : sort row_le t.server_rows ≡ sort row_le u.server_rows =
      ap (sort row_le) (sym (append-nil t.server_rows))
      ∙ h.rows []
      ∙ ap (sort row_le) (append-nil u.server_rows) in
    rw (h.covered, h.issues, sorted) refl

pub IsSameOption-left :
    (model : Model) (o p : Option Tally)
    → IsSameOption o p
    → map_option (left model) o ≡ map_option (left model) p
IsSameOption-left model none none h = refl
IsSameOption-left model none (some u) h = absurd h
IsSameOption-left model (some t) none h = absurd h
IsSameOption-left model (some t) (some u) h = ap some (IsSame-left model t u h)
