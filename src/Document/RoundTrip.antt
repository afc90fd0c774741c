-- ===== src/Document/RoundTrip.antt =====
-- What comes back when the parts of the document are read as they were written.
pub mod Whole
use kwaai_net_map.Prelude.{
  ℕ, String, Bool, true, false, not, ◌&&◌, Option, none, some, List, [], ◌∷◌, map, ltb,
  if◌then◌else◌, ◌>>=◌, map_option, ◌≡◌, refl, arith, ◌∙◌,
}
use mathlib.Core.List.{map-id}
use kwaai_net_map.Prelude.Int.{ℤ}
use kwaai_net_map.Prelude.F64.{F64}
use kwaai_net_map.Prelude.Json.{Json}
use kwaai_net_map.Snapshot.{
  ServerInfo, Location, PeerIpInfo, PeerSpan, ServerRow, ModelReport, Contributor,
  ReachabilityIssue, BlockSpan,
}
use kwaai_net_map.Document.Slots.{read_object-struct}
use kwaai_net_map.Document.{
  write_server_info, server_info_slots, write_location, write_peer_ip_info, write_peer_span,
  write_server_row, write_model_report, write_contributor, write_issue, write_block_span,
}
use kwaai_net_map.Document.Values.{
  read_text, read_i64, read_unsigned, read_f64, read_list, write_list, read_bool, finite, is_i64,
  kept, not_null, every, every_some, when, optional-text, optional-bool, optional-i64, optional-f64,
  optional-value, read_f64-write_f64, read_list-write_list, every_always, optional-text_or_null,
}
use kwaai_net_map.Document.Reading.{
  issue_from, block_span_from, read_issue, read_block_span, server_info_from, location_from,
  read_server_info, read_location, peer_ip_info_from, read_peer_ip_info, peer_span_from,
  read_peer_span, server_row_from, read_server_row, model_report_from, read_model_report,
  contributor_from, read_contributor,
}
use kwaai_net_map.Document.Seen.{
  readable_info, seen_info, readable_location, readable_span, seen_span, readable_row, seen_row,
  readable_report, seen_report, readable_contributor, readable_block_span,
}

module _ (of_int : ℤ → F64) where
  location_back :
      (l : Location) → read_location of_int (write_location l) ≡ when (readable_location l) l
  unfolding read_location write_location location_from read_text
  location_back l =
      read_object-struct (location_from of_int) _ refl
      ∙ rw (read_f64-write_f64 of_int l.lat, read_f64-write_f64 of_int l.lon) (ground arith)

  server_info_back :
      (i : ServerInfo)
      → read_server_info of_int (write_server_info i) ≡ when (readable_info i) (seen_info i)
  unfolding read_server_info write_server_info server_info_slots server_info_from read_text read_i64
      read_unsigned
  server_info_back i =
      read_object-struct (server_info_from of_int) _ refl
      ∙ rw
          (
            read_f64-write_f64 of_int i.throughput,
            optional-text i.public_name,
            optional-text i.version,
            optional-f64 of_int i.network_rps,
            optional-f64 of_int i.forward_rps,
            optional-f64 of_int i.inference_rps,
            optional-text i.torch_dtype,
            optional-text i.quant_type,
            optional-bool i.using_relay,
            optional-i64 i.cache_tokens_left,
            optional-bool i.shard_loading,
            optional-value i.vpk,
          )
          (ground arith)

  text_back : (s : String) → read_text (Json.string s) ≡ when true s
  unfolding read_text
  text_back s = refl

  pub texts_back : (l : List String) → read_list read_text (write_list Json.string l) ≡ some l
  texts_back l =
      read_list-write_list Json.string read_text (λ s. true) (λ s. s) text_back l
      ∙ rw (every_always l, map-id l) refl

  pub peer_ip_info_back :
      (p : PeerIpInfo)
      → read_peer_ip_info of_int (write_peer_ip_info p) ≡ when (readable_location p.location) p
  unfolding read_peer_ip_info write_peer_ip_info peer_ip_info_from
  peer_ip_info_back p =
      read_object-struct (peer_ip_info_from of_int) _ refl
      ∙ rw (location_back p.location, texts_back p.multiaddrs, optional-text p.reachability)
          (ground arith)

  peer_span_back :
      (s : PeerSpan)
      → read_peer_span of_int (write_peer_span s) ≡ when (readable_span s) (seen_span s)
  unfolding read_peer_span write_peer_span peer_span_from read_text read_i64
  peer_span_back s =
      read_object-struct (peer_span_from of_int) _ refl
      ∙ rw (server_info_back s.server_info) (ground arith)

  server_row_back :
      (r : ServerRow)
      → read_server_row of_int (write_server_row r) ≡ when (readable_row r) (seen_row r)
  unfolding read_server_row write_server_row server_row_from read_text read_bool
  server_row_back r =
      read_object-struct (server_row_from of_int) _ refl
      ∙ rw (peer_ip_info_back r.peer_ip_info, peer_span_back r.span) (ground arith)

  pub model_report_back :
      (m : ModelReport)
      → read_model_report of_int (write_model_report m) ≡ when (readable_report m) (seen_report m)
  unfolding read_model_report write_model_report model_report_from read_text read_i64
  model_report_back m =
      read_object-struct (model_report_from of_int) _ refl
      ∙ rw
          (read_list-write_list write_server_row (read_server_row of_int) readable_row seen_row
            server_row_back m.server_rows)
          (ground arith)

  pub contributor_back :
      (c : Contributor)
      → read_contributor of_int (write_contributor c) ≡ when (readable_contributor c) c
  unfolding read_contributor write_contributor contributor_from read_text read_i64
  contributor_back c =
      read_object-struct (contributor_from of_int) _ refl
      ∙ rw (read_f64-write_f64 of_int c.throughput, optional-text_or_null c.public_name)
          (ground arith)

pub issue_back : (r : ReachabilityIssue) → read_issue (write_issue r) ≡ when true r
unfolding read_issue write_issue issue_from read_text
issue_back r = read_object-struct issue_from _ refl ∙ ground arith

pub block_span_back :
    (s : BlockSpan) → read_block_span (write_block_span s) ≡ when (readable_block_span s) s
unfolding read_block_span write_block_span block_span_from read_i64
block_span_back s = read_object-struct block_span_from _ refl ∙ ground arith
