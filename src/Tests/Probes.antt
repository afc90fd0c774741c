-- ===== src/Tests/Probes.antt =====
-- Live probes.
use kwaai_net_map.Prelude.{
  ◌+◌, ◌≤◌, String, Bool, some, [], ◌∷◌, ◌≡◌, refl, ◌==◌, ◌&&◌, any, count_if, length,
  if◌then◌else◌,
}
use kwaai_net_map.Probe.{
  Outcome, connected, failed, timed_out, connect_peer, disconnect_peer, candidates_of, probe, check,
}
use kwaai_net_map.Probe.Verdicts.{connects, is_connect, is_disconnect, probe_lem}
use kwaai_net_map.Probe.Overlaps.{Ended, after_all, last_of, verdict_at, check-after_all}
use kwaai_net_map.Prelude.{List, none, ltb, ◌-◌, false, lookup, insert}

abbrev known_peer : String → Bool
known_peer id = id == "QmA"

-- The known address times out and the routed dial connects.
abbrev routed : String → Outcome
routed addr = if addr == "/p2p/QmA" then connected else timed_out

abbrev refused : String → Outcome
refused addr = failed "refused"

routed_test :
    (probe known_peer routed 7 "QmA" ("/ip4/1.2.3.4/tcp/1" ∷ []) []).2
    ≡ connect_peer "/ip4/1.2.3.4/tcp/1" ∷ connect_peer "/p2p/QmA" ∷ disconnect_peer "QmA" ∷ []
unfolding probe
routed_test = refl

refused_test : (probe known_peer refused 7 "QmA" [] []).0.error ≡ some "refused"
unfolding probe
refused_test = refl

not_an_id_test : (probe known_peer routed 7 "x" [] []).0.error ≡ some "not a peer id"
unfolding probe
not_an_id_test = refl

probe_lem_example :
    ((probe known_peer routed 7 "QmA" [] []).0.ok
      ≡ (known_peer "QmA" && any (λ a. connects (routed a)) (candidates_of "QmA" [])))
    × (count_if is_connect (probe known_peer routed 7 "QmA" [] []).2 ≤ length {A = String} [] + 1)
    × (count_if is_disconnect (probe known_peer routed 7 "QmA" [] []).2
        ≡ (if (probe known_peer routed 7 "QmA" [] []).0.ok then 1 else 0))
probe_lem_example = probe_lem known_peer routed "QmA" 7 [] []

-- Two probes of one peer that overlapped: the one that failed ended last.
abbrev overlapping : List Ended
overlapping =
    record { peer_id = "QmA"; addrs = []; outcome = routed; finished = 7 }
    ∷ record { peer_id = "QmB"; addrs = []; outcome = routed; finished = 8 }
    ∷ record { peer_id = "QmA"; addrs = []; outcome = refused; finished = 9 }
    ∷ []

check-after_all_example :
    check known_peer routed 299000 299001 "QmA" [] (after_all known_peer overlapping []) []
    ≡ elim (last_of "QmA" overlapping) [
      | none ↦ probe known_peer routed 299001 "QmA" [] []
      | some p ↦
          if ltb (299000 - p.finished) 300000
          then (verdict_at known_peer p, [], [])
          else probe known_peer routed 299001 "QmA" [] []
    ]
check-after_all_example = check-after_all known_peer overlapping 299000 299001 "QmA" [] routed []

overlapping_test :
    (check known_peer routed 299000 299001 "QmA" [] (after_all known_peer overlapping []) []).0.ok
    ≡ false
unfolding check probe after_all lookup insert
overlapping_test = refl
