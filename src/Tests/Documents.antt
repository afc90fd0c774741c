-- ===== src/Tests/Documents.antt =====
-- The served document of small crawls, written and read again.
use Prim.Native.String.{[], ◌∷◌}
use kwaai_net_map.Prelude.{
  ℕ, zero, suc, String, Option, none, some, ◌≡◌, refl, ap, arith, List, ◌++◌,
}
use kwaai_net_map.Prelude.Int.{ℤ, pos}
use kwaai_net_map.Prelude.F64.{F64}
use kwaai_net_map.Prelude.Json.{Json}
use kwaai_net_map.Snapshot.{default_server_info, Snapshot, default_snapshot}
use kwaai_net_map.Cache.{NodeCache, new}
use kwaai_net_map.Cache.Holding.{publish_all}
use kwaai_net_map.Routes.{get_v1_state}
use kwaai_net_map.Document.{write_snapshot, write_server_info, server_info_slots}
use kwaai_net_map.Document.Slots.{read_object, struct}
use kwaai_net_map.Document.Values.{
  read_text, read_f64, write_f64, read_i64, optional, read_unsigned,
}
use kwaai_net_map.Document.Reading.{read_server_info, server_info_from}
use kwaai_net_map.Document.Reading.Rows.{read_snapshot}
use kwaai_net_map.Document.RoundTrip.Whole.{read_snapshot-write_snapshot}
use kwaai_net_map.Document.Marks.{names, under, names_after, state_names}
use kwaai_net_map.Tests.Serving.{read_at}

-- An instant as that many strokes.
abbrev pub strokes : ℕ → String
strokes zero = []
strokes (suc t) = "|" ∷ strokes t

abbrev count : String → ℕ
count [] = zero
count (c ∷ s) = suc (count s)

abbrev read_strokes : String → Option ℕ
read_strokes s = some (count s)

count-strokes : (t : ℕ) → count (strokes t) ≡ t
count-strokes zero = refl
count-strokes (suc t) = ap suc (count-strokes t)

abbrev of_int : ℤ → F64
of_int z = 0

-- Held since the instant 2, with a contributor whose throughput is infinite or not.
abbrev held_with : F64 → Snapshot
held_with throughput = record (read_at 2) {
  stale_since = some 2;
  crawls_held = 1;
  top_contributors =
      List.◌∷◌
        (record { peer_id = "QmA"; public_name = none; throughput = throughput; blocks = pos 4 })
        List.[];
}

-- The pattern of infinity.
abbrev infinity : F64
infinity = 9218868437227405312

read_snapshot-write_snapshot_example :
    read_snapshot of_int read_strokes (write_snapshot strokes (held_with 0)) ≡ some (held_with 0)
read_snapshot-write_snapshot_example =
    read_snapshot-write_snapshot of_int strokes read_strokes (λ t. ap some (count-strokes t))
      (held_with 0)

-- One infinite throughput, and the document is refused.
infinite_test :
    read_snapshot of_int read_strokes (write_snapshot strokes (held_with infinity)) ≡ none
infinite_test =
    read_snapshot-write_snapshot of_int strokes read_strokes (λ t. ap some (count-strokes t))
      (held_with infinity)

-- An infinite rate and the id inside a record are lost, and nothing else.
info_test :
    read_server_info of_int (
      write_server_info
        (record default_server_info { network_rps = some infinity; peer_id = some "QmA" }))
    ≡ some default_server_info
unfolding read_server_info write_server_info read_object struct server_info_from server_info_slots
    read_text read_f64 write_f64 read_i64 optional read_unsigned
info_test = refl

abbrev empty_at : ℕ → Snapshot
empty_at now = default_snapshot now

abbrev served : NodeCache
served = publish_all (new 0) (List.[] ++ List.◌∷◌ (read_at 5) (List.◌∷◌ (empty_at 6) List.[]))

state_names_example :
    (names (write_snapshot strokes (get_v1_state served)) ≡ names_after 1)
    × (under "stale_since" (write_snapshot strokes (get_v1_state served))
        ≡ some (Json.string (strokes 5)))
state_names_example =
    state_names strokes (new 0) List.[] (read_at 5) (List.◌∷◌ (empty_at 6) List.[])
      (record { no_stale = refl; not_held = refl }) (omega arith) (refl, tt)
