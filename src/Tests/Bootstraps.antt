-- ===== src/Tests/Bootstraps.antt =====
-- The bootstrap set.
use kwaai_net_map.Prelude.{
  String, Bool, true, false, List, [], ◌∷◌, map, ◌≡◌, refl, ◌&&◌, not, select, arith, eq_iff,
}
use kwaai_net_map.Text.{contains}
use kwaai_net_map.Bootstrap.{new, live, states, record_answer, dial_all, state_of}
use kwaai_net_map.Bootstrap.Laws.{
  replay, answered_in, failed_in, dialed_set, states-replay, live-replay, IsDistinct,
}

abbrev configured : List String
configured = "/ip4/1.2.3.4/tcp/8000/p2p/QmA" ∷ "/ip4/5.6.7.8/tcp/8000/p2p/QmB" ∷ []

abbrev log : List (String × Bool)
log = ("/ip4/1.2.3.4/tcp/8000/p2p/QmA", false) ∷ ("/ip4/5.6.7.8/tcp/8000/p2p/QmB", true) ∷ []

abbrev everywhere : String → Bool
everywhere addr = true

configured-IsDistinct : IsDistinct configured
configured-IsDistinct = (
  (ground (arith, eq_iff "/ip4/1.2.3.4/tcp/8000/p2p/QmA" "/ip4/5.6.7.8/tcp/8000/p2p/QmB"), tt),
  (tt, tt),
)

dialed_is_not_online : states (dialed_set everywhere configured) ≡ "offline" ∷ "offline" ∷ []
unfolding states dial_all new
dialed_is_not_online = refl

failed_is_dropped :
    live (replay (dialed_set everywhere configured) log) ≡ "/ip4/5.6.7.8/tcp/8000/p2p/QmB" ∷ []
unfolding live replay record_answer dial_all new contains
failed_is_dropped = refl

states-replay_example :
    states (replay (dialed_set everywhere configured) log)
    ≡ map (λ a. state_of (answered_in log a)) configured
states-replay_example = states-replay everywhere configured log configured-IsDistinct

live-replay_example :
    live (replay (dialed_set everywhere configured) log)
    ≡ select (λ a. contains a "/p2p/" && everywhere a && not (failed_in log a)) configured
live-replay_example = live-replay everywhere configured log configured-IsDistinct
