-- ===== src/Assemble/Health.antt =====
-- Which blocks a model's report counts as covered, and when it is healthy.
use kwaai_net_map.Prelude.{
  ℕ, ◌-◌, ◌<◌, String, Bool, true, ◌&&◌, ◌||◌, Option, some, List, [], ◌∷◌, ◌≡◌, refl, ap, ◌∙◌, ◌↔◌,
  inl, inr, if◌then◌else◌, any, length, All, arith, eq_iff, Assoc, Bool-cases, Option-cases,
}
use kwaai_net_map.Prelude.Int.{pos}
use kwaai_net_map.Prelude.Sets.{
  elem, extend_nat, IsAscending, extend_nat-IsAscending, elem-extend_nat, All-extend_nat,
  elem_of_full, full_of_elem,
}
use kwaai_net_map.Snapshot.{Location}
use kwaai_net_map.Observed.{Observed}
use kwaai_net_map.Assemble.{Model, PeerModelEntry, is_online}
use kwaai_net_map.Assemble.Build.{Tally, server_row, visit_peer, visit_peers, report_of}

-- The blocks of the peers that say they are online.
cover : Assoc PeerModelEntry → List ℕ → List ℕ
cover [] covered = covered
cover ((id, entry) ∷ peers) covered =
    cover peers (if is_online entry.info then extend_nat covered entry.blocks else covered)

-- Some online peer of the model has the block.
abbrev pub is_covered : Assoc PeerModelEntry → ℕ → Bool
is_covered peers b = any (λ p. is_online p.1.info && elem b p.1.blocks) peers

-- Every block number that a peer was found under is below the bound.
abbrev pub AreBelow : ℕ → Assoc PeerModelEntry → Type 0
AreBelow n peers = All (λ p. All (λ b. b < n) p.1.blocks) peers

elem-cover :
    (b : ℕ) (peers : Assoc PeerModelEntry) (covered : List ℕ)
    → elem b (cover peers covered) ≡ (is_covered peers b || elem b covered)
unfolding cover
elem-cover b [] covered = refl
elem-cover b ((id, entry) ∷ peers) covered = elim (Bool-cases (is_online entry.info)) [
  | inl online ↦ rw online (
      elem-cover b peers (extend_nat covered entry.blocks)
      ∙ ground (arith, elem-extend_nat b covered entry.blocks))
  | inr offline ↦ rw offline (elem-cover b peers covered)
]

cover-IsAscending :
    (peers : Assoc PeerModelEntry) (covered : List ℕ)
    → IsAscending 0 covered
    → IsAscending 0 (cover peers covered)
unfolding cover
cover-IsAscending [] covered a = a
cover-IsAscending ((id, entry) ∷ peers) covered a = elim (Bool-cases (is_online entry.info)) [
  | inl online ↦ rw online (
      cover-IsAscending peers (extend_nat covered entry.blocks)
        (extend_nat-IsAscending covered entry.blocks a))
  | inr offline ↦ rw offline (cover-IsAscending peers covered a)
]

All-cover :
    (n : ℕ) (peers : Assoc PeerModelEntry) (covered : List ℕ)
    → AreBelow n peers
    → All (λ b. b < n) covered
    → All (λ b. b < n) (cover peers covered)
unfolding cover
All-cover n [] covered h a = a
All-cover n ((id, entry) ∷ peers) covered h a = elim (Bool-cases (is_online entry.info)) [
  | inl online ↦ rw online (
      All-cover n peers (extend_nat covered entry.blocks) h.1
        (All-extend_nat n covered entry.blocks a h.0))
  | inr offline ↦ rw offline (All-cover n peers covered h.1 a)
]

report-healthy_iff :
    (model : Model) (t : Tally) (n : ℕ)
    → model.num_blocks ≡ pos n
    → ((report_of model t).state ≡ "healthy") ↔ (length t.covered ≡ n)
unfolding report_of
report-healthy_iff model t n count = rw count (ground (arith, eq_iff "broken" "healthy"))

module _ (locate : List String → Location) (addrs : Assoc Observed) (known : Assoc Location) where
  abbrev pub visited : Assoc String → Assoc PeerModelEntry → Tally → Option Tally
  visited = visit_peers locate addrs known

  covered-visit_peer :
      (dial_errors : Assoc String) (id : String) (entry : PeerModelEntry) (t t' : Tally)
      → visit_peer locate addrs known dial_errors id entry t ≡ some t'
      → t'.covered ≡ (if is_online entry.info then extend_nat t.covered entry.blocks else t.covered)
  unfolding visit_peer
  covered-visit_peer dial_errors id entry t t' e =
      elim (Option-cases (server_row locate addrs known id entry)) [
        | inl panic ↦ absurd (ground arith)
        | inr (row, made) ↦ ground arith
      ]

  covered-visit_peers :
      (dial_errors : Assoc String) (peers : Assoc PeerModelEntry) (t t' : Tally)
      → visited dial_errors peers t ≡ some t'
      → t'.covered ≡ cover peers t.covered
  unfolding visit_peers cover
  covered-visit_peers dial_errors [] t t' e = ground arith
  covered-visit_peers dial_errors ((id, entry) ∷ peers) t t' e =
      elim (Option-cases (visit_peer locate addrs known dial_errors id entry t)) [
        | inl panic ↦ absurd (ground arith)
        | inr (u, made) ↦
            covered-visit_peers dial_errors peers u t' (ground arith)
            ∙ ap (cover peers) (covered-visit_peer dial_errors id entry t u made)
      ]

  -- If the loop over a model's peers ends without a panic, and each of them was only found under
  -- block numbers below the model's block count, then the report is "healthy" exactly when every
  -- block of the model is held by some peer that says it is online.
  pub healthy_iff :
      (dial_errors issues : Assoc String) (model : Model) (n : ℕ) (peers : Assoc PeerModelEntry)
      (t : Tally)
      → model.num_blocks ≡ pos n
      → AreBelow n peers
      → visited dial_errors peers (record { covered = []; issues = issues; server_rows = [] })
        ≡ some t
      → ((report_of model t).state ≡ "healthy") ↔ ((b : ℕ) → b < n → is_covered peers b ≡ true)
  healthy_iff dial_errors issues model n peers t count below made =
      let all = covered-visit_peers dial_errors peers _ t made in
      let asc = cover-IsAscending peers [] tt in
      let bounded = All-cover n peers [] below tt in
      let (to, from) = report-healthy_iff model t n count in
      let len : length t.covered ≡ length (cover peers []) = ap length all in
      (
        λ healthy b lt.
            let full : length (cover peers []) ≡ n - 0 = omega (arith, len, to healthy) in
            ground (
              arith,
              elem-cover b peers [],
              elem_of_full 0 n (cover peers []) asc bounded full b (omega arith) lt,
            ),
        λ every.
            let full =
              full_of_elem 0 n (cover peers []) asc bounded
                (λ b p q. ground (arith, elem-cover b peers [], every b q)) in
            from (omega (arith, len, full)),
      )
