-- ===== src/Crawl/Collecting.antt =====
-- The peers of a model as its block records name them: `collect_model` of
-- map-server/src/crawler.rs.
use kwaai_net_map.Prelude.{ℕ, zero, suc, ◌+◌, String, List, [], ◌∷◌, ◌==◌, if◌then◌else◌, Assoc}
use kwaai_net_map.Prelude.Sets.{insert_nat}
use kwaai_net_map.Snapshot.{ServerInfo}
use kwaai_net_map.Assemble.{PeerModelEntry, is_online}

-- The keys of a model's blocks, from the number on.
unfoldable pub block_names : (name : ℕ → String) → ℕ → ℕ → List String
block_names name from zero = []
block_names name from (suc n) = name from ∷ block_names name (from + 1) n

-- `out.entry(peer_id).or_insert_with(..)`, then the block and the fresher record.
unfoldable pub add_server : ℕ → String → ServerInfo → Assoc PeerModelEntry → Assoc PeerModelEntry
add_server block peer_id info [] =
    (peer_id, record { blocks = insert_nat block []; info = info }) ∷ []
add_server block peer_id info ((id, entry) ∷ out) =
    if id == peer_id
    then (
      id,
      record {
        blocks = insert_nat block entry.blocks;
        info = if is_online info then info else entry.info;
      },
    )
      ∷ out
    else (id, entry) ∷ add_server block peer_id info out

unfoldable pub add_servers :
    ℕ → List (String × ServerInfo) → Assoc PeerModelEntry → Assoc PeerModelEntry
unfolding add_server
add_servers block [] out = out
add_servers block ((peer_id, info) ∷ servers) out =
    add_servers block servers (add_server block peer_id info out)
