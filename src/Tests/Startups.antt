-- ===== src/Tests/Startups.antt =====
-- Start-up with a few sets of variables.
use kwaai_net_map.Prelude.{
  ℕ, String, false, ◌&&◌, is_some, none, some, [], ◌∷◌, ◌≡◌, refl, ◌==◌, if◌then◌else◌,
}
use kwaai_net_map.Text.{parse_usize, trim, split_whitespace}
use kwaai_net_map.Prelude.{lookup}
use kwaai_net_map.Startup.{
  app, get_v1_state, Vars, Platform, allow_origins, server_done, total_blocks, only_global_ips,
  bootstrap_peers, cors_of, exits_well, bind_addr,
}
use kwaai_net_map.Startup.Words.{bootstrap_peers-unwords}
use kwaai_net_map.Startup.Running.{names_bootstraps, spawns, is_server_done, exits_well_iff}

abbrev vars : Vars
vars name =
    if name == "BOOTSTRAP_PEERS"
    then some "/dns/a/p2p/QmA /dns/b/p2p/QmB"
    else if name == "TOTAL_BLOCKS"
    then some "+32"
    else if name == "MAP_ONLY_GLOBAL_IPS"
    then some "no"
    else if name == "ALLOWED_ORIGINS"
    then some "https://a.org, https://b.org"
    else none

-- The number of dialed addresses is the state of the network.
abbrev os : Platform ℕ String String String
os = record {
  parse_multiaddr = λ s. some s;
  parse_origin = λ s. some s;
  is_wildcard = λ s. s == "*";
  spawn = λ config w. (some "swarm", w);
  bootstrap = λ handle addrs w. (false, w);
  bind = λ addr. addr == "0.0.0.0:3030";
}

total_blocks_read : total_blocks vars ≡ some 32
unfolding total_blocks parse_usize
total_blocks_read = refl

parse_usize_refuses :
    (parse_usize "" ≡ none)
    × (parse_usize "-1" ≡ none)
    × (parse_usize "+" ≡ none)
    × (parse_usize "18446744073709551616" ≡ none)
    × (parse_usize "18446744073709551615" ≡ some 18446744073709551615)
unfolding parse_usize
parse_usize_refuses = (refl, refl, refl, refl, refl)

only_global_ips_off : only_global_ips vars ≡ false
unfolding only_global_ips
only_global_ips_off = refl

cors_of_two : cors_of os vars ≡ some (allow_origins ("https://a.org" ∷ "https://b.org" ∷ []))
unfolding cors_of trim split_whitespace
cors_of_two = refl

words_test : bootstrap_peers vars ≡ "/dns/a/p2p/QmA" ∷ "/dns/b/p2p/QmB" ∷ []
words_test =
    bootstrap_peers-unwords vars ("/dns/a/p2p/QmA" ∷ "/dns/b/p2p/QmB" ∷ []) (refl, (refl, tt)) refl

ending_test : exits_well os 1000 vars 0 server_done ≡ (
    names_bootstraps vars
    && (spawns os vars 0
        && (is_some (cors_of os vars) && (os.bind (bind_addr vars) && is_server_done server_done))))
ending_test = exits_well_iff os 1000 vars 0 server_done

cors_of_wildcard :
    cors_of os (λ name. if name == "ALLOWED_ORIGINS" then some "https://a.org,*" else none) ≡ none
unfolding cors_of trim split_whitespace
cors_of_wildcard = refl

state_path : lookup "/api/v1/state" app ≡ some get_v1_state
unfolding app lookup
state_path = refl

metrics_paths : lookup "/metrics" app ≡ lookup "/api/prometheus" app
unfolding app lookup
metrics_paths = refl
