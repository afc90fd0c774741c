-- ===== src/Tests/Reports.antt =====
-- The reports of a pass over a network with one record.
use kwaai_net_map.Prelude.{ℕ, String, none, some, [], ◌∷◌, map, ◌≡◌, refl, All, lookup}
use kwaai_net_map.Prelude.Sorting.{text_set, insert_sorted, sort}
use kwaai_net_map.Text.{contains, split_once, rsplit_once}
use kwaai_net_map.Snapshot.{Snapshot, default_snapshot}
use kwaai_net_map.Snapshot.ShortId.{short_peer_id}
use kwaai_net_map.Bootstrap
use kwaai_net_map.Bootstrap.{has_dialable, dial_all, live, record_answer}
use kwaai_net_map.Assemble.{map_all}
use kwaai_net_map.Assemble.Build.{build_snapshot}
use kwaai_net_map.Assemble.Reports.{IsJudged}
use kwaai_net_map.Observed.{observed_addrs, excluded_peers}
use kwaai_net_map.Dht.{servers_in}
use kwaai_net_map.Crawl.{
  discover_models, rpc_find, rpc_find_inner, collect_model, collect_capability,
}
use kwaai_net_map.Pass.{Environment, query_all, crawl_once}
use kwaai_net_map.Cache.{new}
use kwaai_net_map.Pass.{run_crawler}
use kwaai_net_map.Prelude.{List, Option, true, eqb, if◌then◌else◌}
use kwaai_net_map.Pass.Frozen.{panics, run_crawler-frozen}
use kwaai_net_map.Pass.Rows.{Ascends, run_crawler-Ascends}
use kwaai_net_map.Pass.Reports.{crawl_once-IsJudged}
use kwaai_net_map.Tests.Crawls.{toy, echo, echo_fits, one_digit}
use kwaai_net_map.Tests.Passes.{environment, configured, no_ip, no_places}

-- The one record of the network is that of QmA, for the first of the 80 blocks of bloom.
abbrev held : Environment ℕ String
held = record environment { net = echo }

abbrev held_read : Snapshot
held_read = elim (crawl_once no_ip one_digit "QmUs" held configured no_places).0 [
  | none ↦ default_snapshot 0
  | some s ↦ s
]

held_lem : (crawl_once no_ip one_digit "QmUs" held configured no_places).0 ≡ some held_read
unfolding crawl_once has_dialable dial_all Bootstrap.new contains build_snapshot discover_models
    live rpc_find rpc_find_inner split_once lookup insert_sorted collect_model record_answer
    short_peer_id map_all text_set collect_capability observed_addrs excluded_peers rsplit_once
    servers_in
held_lem = refl

held_reports : map (λ r. r.dht_prefix) held_read.model_reports ≡ "bloom" ∷ []
unfolding crawl_once has_dialable dial_all Bootstrap.new contains build_snapshot discover_models
    live rpc_find rpc_find_inner split_once lookup insert_sorted collect_model record_answer
    short_peer_id map_all text_set collect_capability observed_addrs excluded_peers rsplit_once
    servers_in sort
held_reports = refl

crawl_once-IsJudged_example :
    All
      (IsJudged
        (query_all no_ip one_digit "QmUs" held
          (dial_all held.connects (Bootstrap.new configured))).0
        (query_all no_ip one_digit "QmUs" held
          (dial_all held.connects (Bootstrap.new configured))).1)
      held_read.model_reports
crawl_once-IsJudged_example =
    crawl_once-IsJudged no_ip one_digit "QmUs" held echo_fits configured no_places held_read
      held_lem

run_crawler-Ascends_example :
    Ascends
      (run_crawler no_ip one_digit "QmUs" configured
        (held ∷ held ∷ [])
        no_places
        (new 0)).snapshot.peers
run_crawler-Ascends_example =
    run_crawler-Ascends no_ip one_digit "QmUs" configured (held ∷ held ∷ []) no_places 0

-- The record's peer id is longer than ten bytes, and its seventh byte is inside a character.
abbrev accented_name : List ℕ → Option String
accented_name [] = none
accented_name (b ∷ bytes) = if eqb b 1 then some "peer_id" else some "ééééééa"

abbrev hostile : Environment ℕ String
hostile = record held { msgpack = record toy { utf8 = accented_name } }

dialable : has_dialable (dial_all hostile.connects (Bootstrap.new configured)) ≡ true
unfolding has_dialable dial_all Bootstrap.new contains
dialable = refl

hostile-panics : panics no_ip one_digit "QmUs" hostile configured ≡ true
unfolding query_all has_dialable dial_all Bootstrap.new contains discover_models live rpc_find
    rpc_find_inner split_once lookup insert_sorted collect_model record_answer collect_capability
    servers_in observed_addrs excluded_peers rsplit_once
hostile-panics = refl

run_crawler-frozen_example :
    run_crawler no_ip one_digit "QmUs" configured (held ∷ hostile ∷ held ∷ []) no_places (new 0)
    ≡ run_crawler no_ip one_digit "QmUs" configured (held ∷ []) no_places (new 0)
run_crawler-frozen_example =
    run_crawler-frozen no_ip one_digit "QmUs" hostile configured (held ∷ []) (held ∷ []) no_places
      (new 0) hostile-panics
