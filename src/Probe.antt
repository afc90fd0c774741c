-- ===== src/Probe.antt =====
-- Live reachability probes: `Verdict` and `Reachability` of map-server/src/reachability.rs.
pub mod Verdicts
pub mod Overlaps
use kwaai_net_map.Prelude.{
  ℕ, ◌-◌, String, Bool, true, false, Option, none, some, List, [], ◌∷◌, ◌++◌, ltb, if◌then◌else◌,
  Assoc, lookup, insert,
}
use kwaai_net_map.Text.{append}

pub record Verdict : Type 0 where
  pub ok : Bool
  pub error : Option String

-- How a dial under the five second timeout ends.
pub data Outcome : Type 0 where
  connected : Outcome
  failed : String → Outcome
  timed_out : Outcome

-- What the probe asks of the swarm.
pub data Action : Type 0 where
  connect_peer : String → Action
  disconnect_peer : String → Action

-- Instants are in milliseconds.
abbrev pub cache_ttl : ℕ
cache_ttl = 300000

abbrev pub timeout_message : String
timeout_message = "failed to connect in 5 sec. Firewall may be blocking connections"

abbrev pub candidates_of : String → List String → List String
candidates_of peer_id addrs = addrs ++ append "/p2p/" peer_id ∷ []

-- The loop of `dial`: the error, `none` after a connection, and what it asked of the swarm.
-- `outcome` says how the dial of an address ends.
unfoldable pub dial_from :
    (String → Outcome) → String → String → List String → Option String × List Action
dial_from outcome peer_id last [] = (some last, [])
dial_from outcome peer_id last (addr ∷ candidates) = elim (outcome addr) [
  | connected ↦ (none, connect_peer addr ∷ disconnect_peer peer_id ∷ [])
  | failed e ↦
      let (r, actions) = dial_from outcome peer_id e candidates in (r, connect_peer addr ∷ actions)
  | timed_out ↦
      let (r, actions) = dial_from outcome peer_id timeout_message candidates in
      (r, connect_peer addr ∷ actions)
]

module _ (is_peer_id : String → Bool) (outcome : String → Outcome) where
  unfoldable pub dial : String → List String → Option String × List Action
  unfolding dial_from
  dial peer_id addrs =
      if is_peer_id peer_id
      then dial_from outcome peer_id "no candidate address" (candidates_of peer_id addrs)
      else (some "not a peer id", [])

  abbrev pub verdict_of : Option String → Verdict
  verdict_of none = record { ok = true; error = none }
  verdict_of (some e) = record { ok = false; error = some e }

  -- The probe past the cache; `finished` is the instant at which the dial has ended.
  unfoldable pub probe :
      ℕ → String → List String → Assoc (ℕ × Verdict) → Verdict × Assoc (ℕ × Verdict) × List Action
  unfolding dial
  probe finished peer_id addrs cache =
      let (r, actions) = dial peer_id addrs in
      (verdict_of r, insert peer_id (finished, verdict_of r) cache, actions)

  -- `check`, which reads the cache at the instant `now`. Other requests run while it dials, so the
  -- cache that it adds its verdict to is another one, `later`: the one at the instant `finished`.
  unfoldable pub check :
      (now finished : ℕ)
      → String
      → List String
      → (cache later : Assoc (ℕ × Verdict)) → Verdict × Assoc (ℕ × Verdict) × List Action
  unfolding probe
  check now finished peer_id addrs cache later = elim (lookup peer_id cache) [
    | none ↦ probe finished peer_id addrs later
    | some (at, verdict) ↦
        if ltb (now - at) cache_ttl
        then (verdict, later, [])
        else probe finished peer_id addrs later
  ]
