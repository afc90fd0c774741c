-- ===== src/Bootstrap/Laws.antt =====
-- What the states and the live addresses of a `BootstrapSet` are after any sequence of answers.
use kwaai_net_map.Prelude.{
  String, Bool, true, false, List, [], ◌∷◌, map, ◌==◌, ◌&&◌, ◌||◌, ◌≡◌, ◌≢◌, refl, sym, ap, ◌∙◌,
  not, any, select, All, if◌then◌else◌, arith, eq_iff, Bool-cases, inl, inr,
}
use kwaai_net_map.Text.{contains}
use kwaai_net_map.Bootstrap.{
  BootstrapEntry, BootstrapSet, new, live, mark, record_answer, state_of, states, dial_all,
}

-- The addresses are pairwise different.
abbrev pub IsDistinct : List String → Type 0
IsDistinct [] = Unit
IsDistinct (a ∷ l) = All (λ b. a ≢ b) l × IsDistinct l

-- Any sequence of query outcomes.
unfoldable pub replay : BootstrapSet → List (String × Bool) → BootstrapSet
replay set [] = set
replay set ((addr, answered) ∷ log) = replay (record_answer addr answered set) log

-- Whether the address answered some query of the log.
abbrev pub answered_in : List (String × Bool) → String → Bool
answered_in log addr = any (λ q. q.1 && (addr == q.0)) log

-- Whether the address failed some query of the log.
abbrev pub failed_in : List (String × Bool) → String → Bool
failed_in log addr = any (λ q. not q.1 && (addr == q.0)) log

abbrev addrs : BootstrapSet → List String
addrs set = map (λ e. e.addr) set

-- The entry as it stands after the log.
after : List (String × Bool) → BootstrapEntry → BootstrapEntry
after log e = record {
  addr = e.addr;
  dialed = e.dialed && not (failed_in log e.addr);
  answered = e.answered || answered_in log e.addr;
}

update : String → Bool → BootstrapEntry → BootstrapEntry
update addr answered e = if e.addr == addr then mark answered e else e

map_update_other :
    (addr : String) (b : Bool) (set : BootstrapSet)
    → All (λ a. addr ≢ a) (addrs set)
    → map (update addr b) set ≡ set
unfolding update
map_update_other addr b [] h = refl
map_update_other addr b (e ∷ set) h =
    ground (arith, map_update_other addr b set, eq_iff e.addr addr)

record_answer-eq-map :
    (addr : String) (b : Bool) (set : BootstrapSet)
    → IsDistinct (addrs set)
    → record_answer addr b set ≡ map (update addr b) set
unfolding record_answer update
record_answer-eq-map addr b [] h = refl
record_answer-eq-map addr b (e ∷ set) (fresh, h) = elim (Bool-cases (e.addr == addr)) [
  | inl same ↦
      let here : e.addr ≡ addr = (eq_iff e.addr addr).0 same in
      let rest : map (update addr b) set ≡ set = map_update_other addr b set (rw (← here) fresh) in
      rw same (ap (◌∷◌ (mark b e)) (sym rest))
  | inr other ↦ rw other (ap (◌∷◌ e) (record_answer-eq-map addr b set h))
]

addrs-update :
    (addr : String) (b : Bool) (set : BootstrapSet) → addrs (map (update addr b) set) ≡ addrs set
unfolding update
addrs-update addr b [] = refl
addrs-update addr b (e ∷ set) = ground (arith, addrs-update addr b set)

update_same :
    (addr : String) (b : Bool) (e : BootstrapEntry)
    → (e.addr == addr) ≡ true
    → update addr b e ≡ mark b e
unfolding update
update_same addr b e h = rw h

update_other :
    (addr : String) (b : Bool) (e : BootstrapEntry) → (e.addr == addr) ≡ false → update addr b e ≡ e
unfolding update
update_other addr b e h = rw h

after-mark :
    (addr : String) (b : Bool) (log : List (String × Bool)) (e : BootstrapEntry)
    → (e.addr == addr) ≡ true
    → after log (mark b e) ≡ after ((addr, b) ∷ log) e
unfolding after
after-mark addr true log e h = rw h (ground arith)
after-mark addr false log e h = rw h (ground arith)

after_other :
    (addr : String) (b : Bool) (log : List (String × Bool)) (e : BootstrapEntry)
    → (e.addr == addr) ≡ false
    → after log e ≡ after ((addr, b) ∷ log) e
unfolding after
after_other addr true log e h = rw h
after_other addr false log e h = rw h

after-update :
    (addr : String) (b : Bool) (log : List (String × Bool)) (e : BootstrapEntry)
    → after log (update addr b e) ≡ after ((addr, b) ∷ log) e
after-update addr b log e = elim (Bool-cases (e.addr == addr)) [
  | inl same ↦ rw (update_same addr b e same) (after-mark addr b log e same)
  | inr other ↦ rw (update_other addr b e other) (after_other addr b log e other)
]

map_after-update :
    (addr : String) (b : Bool) (log : List (String × Bool)) (set : BootstrapSet)
    → map (after log) (map (update addr b) set) ≡ map (after ((addr, b) ∷ log)) set
map_after-update addr b log [] = refl
map_after-update addr b log (e ∷ set) =
    cc (after-update addr b log e, map_after-update addr b log set)

map-after_nil : (set : BootstrapSet) → map (after []) set ≡ set
unfolding after
map-after_nil [] = refl
map-after_nil (e ∷ set) = ground (arith, map-after_nil set)

replay-eq-map :
    (set : BootstrapSet) (log : List (String × Bool))
    → IsDistinct (addrs set)
    → replay set log ≡ map (after log) set
unfolding replay
replay-eq-map set [] h = sym (map-after_nil set)
replay-eq-map set ((addr, b) ∷ log) h =
    let step = record_answer-eq-map addr b set h in
    rw step (
      replay-eq-map (map (update addr b) set) log (rw addrs-update h)
      ∙ map_after-update addr b log set)

-- The set that a crawl starts from: every bootstrap dialed once.
abbrev pub dialed_set : (String → Bool) → List String → BootstrapSet
dialed_set connects configured = dial_all connects (new configured)

addrs-dialed_set :
    (connects : String → Bool) (configured : List String)
    → addrs (dialed_set connects configured) ≡ configured
unfolding dial_all new
addrs-dialed_set connects [] = refl
addrs-dialed_set connects (a ∷ l) = ap (◌∷◌ a) (addrs-dialed_set connects l)

states-after :
    (connects : String → Bool) (log : List (String × Bool)) (configured : List String)
    → states (map (after log) (dialed_set connects configured))
      ≡ map (λ a. state_of (answered_in log a)) configured
unfolding states after dial_all new
states-after connects log [] = refl
states-after connects log (a ∷ l) =
    ap (◌∷◌ (state_of (answered_in log a))) (states-after connects log l)

live-after :
    (connects : String → Bool) (log : List (String × Bool)) (configured : List String)
    → live (map (after log) (dialed_set connects configured))
      ≡ select (λ a. contains a "/p2p/" && connects a && not (failed_in log a)) configured
unfolding live after dial_all new
live-after connects log [] = refl
live-after connects log (a ∷ l) = ground (arith, live-after connects log l)

module _ (connects : String → Bool) (configured : List String) (log : List (String × Bool)) where
  replay_dialed :
      IsDistinct configured
      → replay (dialed_set connects configured) log
        ≡ map (after log) (dialed_set connects configured)
  replay_dialed h = replay-eq-map (dialed_set connects configured) log (rw addrs-dialed_set h)

  -- Whatever queries a crawl makes of its bootstraps, in any order, if the configured addresses are
  -- pairwise different then the states are one per configured address, in that order, and an
  -- address is "online" exactly when it answered some query; that it could be dialed plays no part.
  pub states-replay :
      IsDistinct configured
      → states (replay (dialed_set connects configured) log)
        ≡ map (λ a. state_of (answered_in log a)) configured
  states-replay h = rw (replay_dialed h) (states-after connects log configured)

  -- Whatever queries a crawl makes, if the configured addresses are pairwise different then the
  -- addresses still asked are, in the configured order, those that hold "/p2p/", that the first
  -- dial reached, and that failed no query of the crawl so far.
  pub live-replay :
      IsDistinct configured
      → live (replay (dialed_set connects configured) log)
        ≡ select (λ a. contains a "/p2p/" && connects a && not (failed_in log a)) configured
  live-replay h = rw (replay_dialed h) (live-after connects log configured)
