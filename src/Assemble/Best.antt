-- ===== src/Assemble/Best.antt =====
-- The contributors' map: the best row of each peer.
use kwaai_net_map.Prelude.{
  String, true, false, List, [], ◌∷◌, ◌++◌, ◌≡◌, ◌≢◌, refl, ◌∙◌, sym, ◌==◌, eq_iff, if◌then◌else◌,
  All, Any, arith, Option, none, some, lookup, keys, eq_refl, Option-cases, Assoc, Bool-cases, inl,
  inr,
}
use kwaai_net_map.Prelude.F64.{F64, gt}
use kwaai_net_map.Snapshot.{ServerRow, ModelReport, Contributor}
use kwaai_net_map.Bootstrap.Laws.{IsDistinct}
use kwaai_net_map.Assemble.Ranking.{candidate, keep_best, best_of_rows, best_of}

-- The candidates of all the rows, model by model.
abbrev pub candidates : List ServerRow → List Contributor
candidates [] = []
candidates (row ∷ rows) = candidate row ∷ candidates rows

abbrev pub all_candidates : List ModelReport → List Contributor
all_candidates [] = []
all_candidates (report ∷ reports) = candidates report.server_rows ++ all_candidates reports

abbrev keep_all : List Contributor → Assoc Contributor → Assoc Contributor
keep_all [] best = best
keep_all (c ∷ cs) best = keep_all cs (keep_best c best)

keep_all-append :
    (cs ds : List Contributor) (best : Assoc Contributor)
    → keep_all (cs ++ ds) best ≡ keep_all ds (keep_all cs best)
keep_all-append [] ds best = refl
keep_all-append (c ∷ cs) ds best = keep_all-append cs ds (keep_best c best)

best_of_rows-eq-keep_all :
    (rows : List ServerRow) (best : Assoc Contributor)
    → best_of_rows rows best ≡ keep_all (candidates rows) best
unfolding best_of_rows
best_of_rows-eq-keep_all [] best = refl
best_of_rows-eq-keep_all (row ∷ rows) best =
    best_of_rows-eq-keep_all rows (keep_best (candidate row) best)

pub best_of-eq-keep_all :
    (reports : List ModelReport) (best : Assoc Contributor)
    → best_of reports best ≡ keep_all (all_candidates reports) best
unfolding best_of
best_of-eq-keep_all [] best = refl
best_of-eq-keep_all (report ∷ reports) best =
    best_of-eq-keep_all reports (best_of_rows report.server_rows best)
    ∙ rw (best_of_rows-eq-keep_all report.server_rows best)
        (sym (keep_all-append (candidates report.server_rows) (all_candidates reports) best))

gt_trans : (x y z : F64) → gt x y ≡ true → gt y z ≡ true → gt x z ≡ true
unfolding gt
gt_trans x y z h k = ground (arith, h, k)

gt_irrefl : (x : F64) → gt x x ≡ false
unfolding gt
gt_irrefl x = ground arith

abbrev better : Contributor → Option Contributor → Contributor
better c none = c
better c (some old) = if gt c.throughput old.throughput then c else old

lookup-keep_best :
    (id : String) (c : Contributor) (best : Assoc Contributor)
    → lookup id (keep_best c best)
      ≡ (if c.peer_id == id then some (better c (lookup id best)) else lookup id best)
unfolding keep_best lookup
lookup-keep_best id c [] = refl
lookup-keep_best id c ((j, old) ∷ best) =
    ground (arith, lookup-keep_best id c best, eq_iff j c.peer_id, eq_iff j id, eq_iff c.peer_id id)

-- The peer has an entry, than which this candidate's throughput is not greater.
abbrev pub IsBeaten : Assoc Contributor → Contributor → Type 0
IsBeaten best d =
    (e : Contributor) × (lookup d.peer_id best ≡ some e) × (gt d.throughput e.throughput ≡ false)

keep_best-IsBeaten :
    (c d : Contributor) (best : Assoc Contributor) → IsBeaten best d → IsBeaten (keep_best c best) d
keep_best-IsBeaten c d best (e, found, beaten) =
    let kept = lookup-keep_best d.peer_id c best in
    elim (Bool-cases (c.peer_id == d.peer_id)) [
      | inr other ↦ (e, ground (arith, kept), beaten)
      | inl same ↦ elim (Bool-cases (gt c.throughput e.throughput)) [
        | inr slower ↦ (e, ground (arith, kept), beaten)
        | inl faster ↦ (
          c,
          ground (arith, kept),
          elim (Bool-cases (gt d.throughput c.throughput)) [
            | inr h ↦ h
            | inl h ↦ absurd (ground (arith, gt_trans _ _ _ h faster))
          ],
        )
      ]
    ]

keep_best-IsBeaten_self :
    (c : Contributor) (best : Assoc Contributor) → IsBeaten (keep_best c best) c
keep_best-IsBeaten_self c best =
    let kept = lookup-keep_best c.peer_id c best in
    let same = eq_refl c.peer_id in
    elim (Option-cases (lookup c.peer_id best)) [
      | inl fresh ↦ (c, ground (arith, kept), gt_irrefl c.throughput)
      | inr (old, known) ↦ elim (Bool-cases (gt c.throughput old.throughput)) [
        | inl faster ↦ (c, ground (arith, kept), gt_irrefl c.throughput)
        | inr slower ↦ (old, ground (arith, kept), slower)
      ]
    ]

keep_all-IsBeaten_one :
    (cs : List Contributor) (d : Contributor) (best : Assoc Contributor)
    → IsBeaten best d
    → IsBeaten (keep_all cs best) d
keep_all-IsBeaten_one [] d best h = h
keep_all-IsBeaten_one (c ∷ cs) d best h =
    keep_all-IsBeaten_one cs d (keep_best c best) (keep_best-IsBeaten c d best h)

keep_all-IsBeaten :
    (cs : List Contributor) (best : Assoc Contributor) → All (IsBeaten (keep_all cs best)) cs
keep_all-IsBeaten [] best = tt
keep_all-IsBeaten (c ∷ cs) best = (
  keep_all-IsBeaten_one cs c (keep_best c best) (keep_best-IsBeaten_self c best),
  keep_all-IsBeaten cs (keep_best c best),
)

-- The entry stands under its peer's id, and is one of the candidates.
abbrev pub IsEntryOf : List Contributor → String × Contributor → Type 0
IsEntryOf cs e = (e.0 ≡ e.1.peer_id) × Any (λ c. c ≡ e.1) cs

keep_best-IsEntryOf :
    (cs : List Contributor) (c : Contributor) (best : Assoc Contributor)
    → Any (λ d. d ≡ c) cs
    → All (IsEntryOf cs) best
    → All (IsEntryOf cs) (keep_best c best)
unfolding keep_best
keep_best-IsEntryOf cs c [] a h = ((refl, a), tt)
keep_best-IsEntryOf cs c ((j, old) ∷ best) a h = elim (Bool-cases (j == c.peer_id)) [
  | inr other ↦ rw other (h.0, keep_best-IsEntryOf cs c best a h.1)
  | inl same ↦ elim (Bool-cases (gt c.throughput old.throughput)) [
    | inl faster ↦ rw (same, faster) (((eq_iff j c.peer_id).0 same, a), h.1)
    | inr slower ↦ rw (same, slower) h
  ]
]

keep_all-IsEntryOf :
    (cs ds : List Contributor) (best : Assoc Contributor)
    → All (λ c. Any (λ d. d ≡ c) cs) ds
    → All (IsEntryOf cs) best
    → All (IsEntryOf cs) (keep_all ds best)
keep_all-IsEntryOf cs [] best a h = h
keep_all-IsEntryOf cs (c ∷ ds) best a h =
    keep_all-IsEntryOf cs ds (keep_best c best) a.1 (keep_best-IsEntryOf cs c best a.0 h)

All-Any_weaken :
    (c : Contributor) (cs ds : List Contributor)
    → All (λ e. Any (λ d. d ≡ e) cs) ds
    → All (λ e. Any (λ d. d ≡ e) (c ∷ cs)) ds
All-Any_weaken c cs [] h = tt
All-Any_weaken c cs (d ∷ ds) h = (inr h.0, All-Any_weaken c cs ds h.1)

All-Any_same : (cs : List Contributor) → All (λ e. Any (λ d. d ≡ e) cs) cs
All-Any_same [] = tt
All-Any_same (c ∷ cs) = (inl refl, All-Any_weaken c cs cs (All-Any_same cs))

keys-keep_best :
    (a : String) (c : Contributor) (best : Assoc Contributor)
    → a ≢ c.peer_id
    → All (λ b. a ≢ b) (keys best)
    → All (λ b. a ≢ b) (keys (keep_best c best))
unfolding keep_best
keys-keep_best a c [] n h = (n, tt)
keys-keep_best a c ((j, old) ∷ best) n h = elim (Bool-cases (j == c.peer_id)) [
  | inl same ↦ rw same h
  | inr other ↦ rw other (h.0, keys-keep_best a c best n h.1)
]

keep_best-IsDistinct :
    (c : Contributor) (best : Assoc Contributor)
    → IsDistinct (keys best)
    → IsDistinct (keys (keep_best c best))
unfolding keep_best
keep_best-IsDistinct c [] h = (tt, tt)
keep_best-IsDistinct c ((j, old) ∷ best) h = elim (Bool-cases (j == c.peer_id)) [
  | inl same ↦ rw same h
  | inr other ↦ rw other (
    keys-keep_best j c best (λ e. ground (arith, eq_iff j c.peer_id)) h.0,
    keep_best-IsDistinct c best h.1,
  )
]

keep_all-IsDistinct :
    (cs : List Contributor) (best : Assoc Contributor)
    → IsDistinct (keys best)
    → IsDistinct (keys (keep_all cs best))
keep_all-IsDistinct [] best h = h
keep_all-IsDistinct (c ∷ cs) best h =
    keep_all-IsDistinct cs (keep_best c best) (keep_best-IsDistinct c best h)

-- One entry for each peer that has a row; it is of one of the peer's rows, and no row of the peer has
-- a greater throughput.
abbrev pub IsBestOf : List Contributor → Assoc Contributor → Type 0
IsBestOf cs best = IsDistinct (keys best) × All (IsEntryOf cs) best × All (IsBeaten best) cs

pub best_of-IsBestOf :
    (reports : List ModelReport) → IsBestOf (all_candidates reports) (best_of reports [])
best_of-IsBestOf reports =
    let cs = all_candidates reports in
    rw (best_of-eq-keep_all reports []) (
      keep_all-IsDistinct cs [] tt,
      keep_all-IsEntryOf cs cs [] (All-Any_same cs) tt,
      keep_all-IsBeaten cs [],
    )
