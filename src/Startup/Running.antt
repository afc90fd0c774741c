-- ===== src/Startup/Running.antt =====
-- When the server starts, and how its process ends.
use Prim.Native.Char.{Char}
use Prim.Native.String.compare
use Prim.Native.String.{[], ◌∷◌}
use kwaai_net_map.Prelude.{
  String, Bool, true, false, not, ◌&&◌, List, ◌≡◌, refl, ◌==◌, select, unwrap_or, is_empty, is_some,
  arith, Bool-cases, Option-cases, inl, inr,
}
use kwaai_net_map.Text.{extend, is_whitespace, split_on, split_whitespace}
use kwaai_net_map.Snapshot.{DateTime}
use kwaai_net_map.Startup.{
  Vars, Platform, Ending, server_done, bootstrap_peers, only_global_ips, bind_addr, cors_of, start,
  set_up, exits_well,
}
use kwaai_net_map.Text.Pieces.{lacks}

-- The pieces around the characters that pass are all empty exactly when all pass.
abbrev full : List String → List String
full pieces = select (λ s. not (s == "")) pieces

is_empty-extend :
    (c : Char) (pieces : List String) → is_empty (full (full (extend c pieces))) ≡ false
is_empty-extend c List.[] = ground (arith, compare.cons-nil c [])
is_empty-extend c (List.◌∷◌ piece pieces) = ground (arith, compare.cons-nil c piece)

is_empty-split_on :
    (s : String)
    → is_empty (full (full (split_on is_whitespace s))) ≡ lacks (λ c. not (is_whitespace c)) s
unfolding split_on
is_empty-split_on [] = refl
is_empty-split_on (c ∷ s) = elim (Bool-cases (is_whitespace c)) [
  | inl white ↦ rw white (is_empty-split_on s)
  | inr black ↦ rw black (is_empty-extend c (split_on is_whitespace s))
]

-- `BOOTSTRAP_PEERS` has a character that is not white space.
abbrev pub names_bootstraps : Vars → Bool
names_bootstraps vars =
    not (lacks (λ c. not (is_whitespace c)) (unwrap_or (vars "BOOTSTRAP_PEERS") ""))

is_empty-bootstrap_peers :
    (vars : Vars) → is_empty (bootstrap_peers vars) ≡ not (names_bootstraps vars)
unfolding bootstrap_peers split_whitespace
is_empty-bootstrap_peers vars =
    ground (arith, is_empty-split_on (unwrap_or (vars "BOOTSTRAP_PEERS") ""))

abbrev pub is_server_done : Ending → Bool
is_server_done server_done = true
is_server_done ending = false

module _ {World Handle Multiaddr Origin : Type 0}
    (os : Platform World Handle Multiaddr Origin) where
  -- The swarm is spawned.
  abbrev pub spawns : Vars → World → Bool
  spawns vars w =
      is_some
        (os.spawn
          (record {
            initial_peers = bootstrap_peers vars;
            dht_server = false;
            require_global_ips = only_global_ips vars;
          })
          w).0

  is_some-start :
      (vars : Vars) (w : World)
      → is_some (start os (bootstrap_peers vars) (only_global_ips vars) w).0 ≡ spawns vars w
  unfolding start
  is_some-start vars w = ground arith

  -- The process ends without an error exactly when `BOOTSTRAP_PEERS` has a character that is not white
  -- space, the swarm is spawned from those bootstraps as a client, `ALLOWED_ORIGINS` does not list the
  -- wildcard among other origins, the address can be bound, and it is the server that ends, without an
  -- error. Whether the first bootstrap succeeds does not matter.
  pub exits_well_iff :
      (now : DateTime) (vars : Vars) (w : World) (ending : Ending)
      → exits_well os now vars w ending ≡ (
          names_bootstraps vars
          && (spawns vars w
              && (is_some (cors_of os vars)
                  && (os.bind (bind_addr vars) && is_server_done ending))))
  unfolding exits_well set_up
  exits_well_iff now vars w ending =
      let named = is_empty-bootstrap_peers vars in
      let spawned = is_some-start vars w in
      elim (Bool-cases (names_bootstraps vars)) [
        | inl named' ↦
            elim (Option-cases (start os (bootstrap_peers vars) (only_global_ips vars) w).0) [
              | inl dead ↦ ground arith
              | inr (handle, alive) ↦ elim (Option-cases (cors_of os vars)) [
                | inl panic ↦ ground arith
                | inr (cors, made) ↦ ground arith
              ]
            ]
        | inr unnamed ↦ ground arith
      ]
