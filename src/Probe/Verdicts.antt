-- ===== src/Probe/Verdicts.antt =====
-- What a probe answers and does.
use kwaai_net_map.Prelude.{
  ℕ, ◌+◌, ◌≤◌, String, Bool, true, false, ◌&&◌, List, [], ◌∷◌, ◌≡◌, refl, ◌⊎◌, if◌then◌else◌, any,
  count_if, length, length-append, arith, is_some, not, Assoc, inl, inr,
}
use kwaai_net_map.Text.{append}
use kwaai_net_map.Probe.{
  Verdict, Outcome, connected, failed, timed_out, Action, connect_peer, disconnect_peer,
  candidates_of, timeout_message, dial_from, probe,
}

abbrev pub connects : Outcome → Bool
connects connected = true
connects _ = false

abbrev pub is_connect : Action → Bool
is_connect (connect_peer a) = true
is_connect (disconnect_peer p) = false

abbrev pub is_disconnect : Action → Bool
is_disconnect a = not (is_connect a)

Outcome-cases : (o : Outcome) → (o ≡ connected) ⊎ ((e : String) × (o ≡ failed e)) ⊎ (o ≡ timed_out)
Outcome-cases connected = inl refl
Outcome-cases (failed e) = inr (inl (e, refl))
Outcome-cases timed_out = inr (inr refl)

module _ (outcome : String → Outcome) (peer_id : String) where
  error-dial_from :
      (last : String) (candidates : List String)
      → is_some (dial_from outcome peer_id last candidates).0
        ≡ not (any (λ a. connects (outcome a)) candidates)
  unfolding dial_from
  error-dial_from last [] = refl
  error-dial_from last (a ∷ l) = elim (Outcome-cases (outcome a)) [
    | inl up ↦ ground arith
    | inr (inl (e, down)) ↦ ground (arith, error-dial_from e l)
    | inr (inr slow) ↦ ground (arith, error-dial_from timeout_message l)
  ]

  -- A connection is hung up: there is one hang-up if the dial succeeds, and none if it fails.
  disconnects-dial_from :
      (last : String) (candidates : List String)
      → count_if is_disconnect (dial_from outcome peer_id last candidates).1
        ≡ (if is_some (dial_from outcome peer_id last candidates).0 then 0 else 1)
  unfolding dial_from
  disconnects-dial_from last [] = refl
  disconnects-dial_from last (a ∷ l) = elim (Outcome-cases (outcome a)) [
    | inl up ↦ ground arith
    | inr (inl (e, down)) ↦ ground (arith, disconnects-dial_from e l)
    | inr (inr slow) ↦ ground (arith, disconnects-dial_from timeout_message l)
  ]

  connects-dial_from :
      (last : String) (candidates : List String)
      → count_if is_connect (dial_from outcome peer_id last candidates).1 ≤ length candidates
  unfolding dial_from
  connects-dial_from last [] = omega arith
  connects-dial_from last (a ∷ l) = elim (Outcome-cases (outcome a)) [
    | inl up ↦ ground arith
    | inr (inl (e, down)) ↦ ground (arith, connects-dial_from e l)
    | inr (inr slow) ↦ ground (arith, connects-dial_from timeout_message l)
  ]

module _ (is_peer_id : String → Bool) (outcome : String → Outcome) (peer_id : String) (finished : ℕ)
    (addrs : List String) (cache : Assoc (ℕ × Verdict)) where
  -- A probe says ok exactly when the id is a peer id and a dial of one of the known addresses, or
  -- of the bare id after them, connects. It makes at most one dial for each of these, and hangs up
  -- once if it connected and never otherwise.
  pub probe_lem :
      ((probe is_peer_id outcome finished peer_id addrs cache).0.ok
        ≡ (is_peer_id peer_id && any (λ a. connects (outcome a)) (candidates_of peer_id addrs)))
      × (count_if is_connect (probe is_peer_id outcome finished peer_id addrs cache).2
          ≤ length addrs + 1)
      × (count_if is_disconnect (probe is_peer_id outcome finished peer_id addrs cache).2
          ≡ (if (probe is_peer_id outcome finished peer_id addrs cache).0.ok then 1 else 0))
  unfolding probe
  probe_lem =
      let last : String = "no candidate address" in
      let l = candidates_of peer_id addrs in
      ground (
        arith,
        error-dial_from outcome peer_id last l,
        connects-dial_from outcome peer_id last l,
        disconnects-dial_from outcome peer_id last l,
        length-append addrs (append "/p2p/" peer_id ∷ []),
      )
