-- ===== src/Snapshot/ShortId.antt =====
-- `short_peer_id` of map-server/src/snapshot.rs.
use Prim.Native.String.{len}
use text.Mathlib.Text.{get?}
use kwaai_net_map.Prelude.{String, Option, some, ltb, if◌then◌else◌, ◌-◌, map_option}
use kwaai_net_map.Text.{append}

-- `none` is the panic of `&peer_id[len - 6..]` at a byte that is not a character's first.
unfoldable pub short_peer_id : String → Option String
short_peer_id peer_id =
    if ltb 10 (len peer_id)
    then map_option (append "...") (get? peer_id (len peer_id - 6) (len peer_id))
    else some peer_id
