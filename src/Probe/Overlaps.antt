-- ===== src/Probe/Overlaps.antt =====
-- Which verdict a check repeats when probes overlap.
use kwaai_net_map.Prelude.{
  ℕ, ◌-◌, String, Bool, Option, none, some, List, [], ◌∷◌, ◌≡◌, refl, ◌∙◌, ◌==◌, if◌then◌else◌, ltb,
  or_else, arith, Assoc, lookup, lookup-insert, Option-cases, Bool-cases, inl, inr,
}
use kwaai_net_map.Probe.{Verdict, Outcome, probe, check}

-- A probe that ended: its peer, the addresses that it was given, how its dials ended, and when.
pub record Ended : Type 0 where
  pub peer_id : String
  pub addrs : List String
  pub outcome : String → Outcome
  pub finished : ℕ

-- The probe of the peer that ended last.
unfoldable pub last_of : String → List Ended → Option Ended
last_of id [] = none
last_of id (p ∷ ended) = or_else (last_of id ended) (if p.peer_id == id then some p else none)

module _ (is_peer_id : String → Bool) where
  -- The verdict of a probe, which the cache plays no part in.
  abbrev pub verdict_at : Ended → Verdict
  verdict_at p = (probe is_peer_id p.outcome p.finished p.peer_id p.addrs []).0

  -- The cache after probes that ended in this order. They may have begun in any other order, and may
  -- have overlapped.
  unfoldable pub after_all : List Ended → Assoc (ℕ × Verdict) → Assoc (ℕ × Verdict)
  after_all [] cache = cache
  after_all (p ∷ ended) cache =
      after_all ended (probe is_peer_id p.outcome p.finished p.peer_id p.addrs cache).1

  abbrev pub stamped : Ended → ℕ × Verdict
  stamped p = (p.finished, verdict_at p)

  lookup-after_all :
      (id : String) (ended : List Ended) (cache : Assoc (ℕ × Verdict))
      → lookup id (after_all ended cache)
        ≡ elim (last_of id ended) [ none ↦ lookup id cache | some p ↦ some (stamped p) ]
  unfolding after_all last_of probe
  lookup-after_all id [] cache = refl
  lookup-after_all id (p ∷ ended) cache =
      lookup-after_all id ended _ ∙ elim (Option-cases (last_of id ended)) [
        | inr (q, found) ↦ rw found refl
        | inl silent ↦ elim (Bool-cases (p.peer_id == id)) [
          | inl here ↦
              rw (silent, here) (ground (arith, lookup-insert p.peer_id id (stamped p) cache))
          | inr other ↦
              rw (silent, other) (ground (arith, lookup-insert p.peer_id id (stamped p) cache))
        ]
      ]

  -- Probes of any peers have ended, in any order whatever of their beginnings. A check of a peer then
  -- gives the verdict of that probe of the peer that ended last, if this was less than 300 seconds
  -- ago: it asks nothing of the swarm and leaves the cache as it is, which other probes may have
  -- changed by then. If it was longer ago, or no probe of the peer has ended, the check is a probe of
  -- its own.
  pub check-after_all :
      (ended : List Ended) (now finished : ℕ) (peer_id : String) (addrs : List String)
      (outcome : String → Outcome) (later : Assoc (ℕ × Verdict))
      → check is_peer_id outcome now finished peer_id addrs (after_all ended []) later
        ≡ elim (last_of peer_id ended) [
          | none ↦ probe is_peer_id outcome finished peer_id addrs later
          | some p ↦
              if ltb (now - p.finished) 300000
              then (verdict_at p, later, [])
              else probe is_peer_id outcome finished peer_id addrs later
        ]
  unfolding check lookup
  check-after_all ended now finished peer_id addrs outcome later =
      let cached = lookup-after_all peer_id ended [] in
      elim (Option-cases (last_of peer_id ended)) [
        | inl silent ↦
            let unknown : lookup peer_id (after_all ended []) ≡ none =
              ground (arith, cached, silent) in
            rw (unknown, silent, check) refl
        | inr (p, found) ↦
            let known : lookup peer_id (after_all ended []) ≡ some (stamped p) =
              ground (arith, cached, found) in
            rw (known, found, check) refl
      ]
