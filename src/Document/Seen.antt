-- ===== src/Document/Seen.antt =====
-- What a reader of the document needs, and what it then sees: the floats that a record cannot do
-- without are numbers, and the integers are of their types. A float of its own choice that is no
-- number, a `vpk` of null and the id inside a server's record are not seen.
use kwaai_net_map.Prelude.{ℕ, Bool, ◌&&◌, none, map, ltb}
use kwaai_net_map.Snapshot.{
  ServerInfo, Location, PeerSpan, ServerRow, ModelReport, Contributor, BlockSpan, PeerRow, Snapshot,
}
use kwaai_net_map.Document.Values.{finite, is_i64, kept, not_null, every, every_some}

abbrev pub is_u64 : ℕ → Bool
is_u64 n = ltb n 18446744073709551616

abbrev pub readable_info : ServerInfo → Bool
readable_info i =
    finite i.throughput
    && is_i64 i.start_block
    && is_i64 i.end_block
    && every_some is_i64 i.cache_tokens_left
    && is_u64 i.trust_attestations

abbrev pub seen_info : ServerInfo → ServerInfo
seen_info i = record i {
  network_rps = kept finite i.network_rps;
  forward_rps = kept finite i.forward_rps;
  inference_rps = kept finite i.inference_rps;
  vpk = kept not_null i.vpk;
  peer_id = none;
}

abbrev pub readable_location : Location → Bool
readable_location l = finite l.lat && finite l.lon

abbrev pub readable_span : PeerSpan → Bool
readable_span s = is_i64 s.start && is_i64 s.end && readable_info s.server_info

abbrev pub seen_span : PeerSpan → PeerSpan
seen_span s = record s { server_info = seen_info s.server_info }

abbrev pub readable_row : ServerRow → Bool
readable_row r = readable_location r.peer_ip_info.location && readable_span r.span

abbrev pub seen_row : ServerRow → ServerRow
seen_row r = record r { span = seen_span r.span }

abbrev pub readable_report : ModelReport → Bool
readable_report m = is_i64 m.num_blocks && every readable_row m.server_rows

abbrev pub seen_report : ModelReport → ModelReport
seen_report m = record m { server_rows = map seen_row m.server_rows }

abbrev pub readable_contributor : Contributor → Bool
readable_contributor c = finite c.throughput && is_i64 c.blocks

abbrev pub readable_block_span : BlockSpan → Bool
readable_block_span s = is_i64 s.start && is_i64 s.end

abbrev pub readable_peer : PeerRow → Bool
readable_peer r =
    every_some readable_block_span r.span
    && finite r.throughput
    && is_u64 r.trust_attestations
    && readable_location r.peer_ip_info.location

abbrev pub seen_peer : PeerRow → PeerRow
seen_peer r = record r { vpk = kept not_null r.vpk }

abbrev pub readable : Snapshot → Bool
readable s =
    every readable_report s.model_reports
    && is_u64 s.num_peers
    && is_u64 s.num_blocks_covered
    && every readable_contributor s.top_contributors
    && is_u64 s.update_period
    && finite s.update_duration
    && ltb s.crawls_held 4294967296
    && every readable_peer s.peers

abbrev pub seen : Snapshot → Snapshot
seen s = record s { model_reports = map seen_report s.model_reports; peers = map seen_peer s.peers }
