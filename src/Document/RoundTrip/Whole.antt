-- ===== src/Document/RoundTrip/Whole.antt =====
-- What comes back when the whole document is read as it was written.
use mathlib.Core.List.{map-id}
use kwaai_net_map.Prelude.{
  ℕ, String, true, Option, none, some, ltb, if◌then◌else◌, map_option, ◌≡◌, refl, arith, ◌∙◌,
}
use kwaai_net_map.Prelude.Int.{ℤ}
use kwaai_net_map.Prelude.F64.{F64}
use kwaai_net_map.Prelude.Json.{Json}
use kwaai_net_map.Snapshot.{DateTime, BlockSpan, PeerRow, Snapshot, is_zero}
use kwaai_net_map.Document.Slots.{read_object-struct, struct}
use kwaai_net_map.Document.{
  write_model_report, write_contributor, write_issue, write_block_span, write_peer_row,
  write_snapshot, snapshot_slots,
}
use kwaai_net_map.Document.Values.{
  read_text, read_bool, read_unsigned, write_option, write_unsigned, optional, defaulted,
  read_option, every_some, when, optional-value_or_null, read_f64-write_f64, read_list-write_list,
  every_always, optional-text_or_null, optional-bool_or_null,
}
use kwaai_net_map.Document.Reading.{
  read_u32, read_issue, read_block_span, read_model_report, read_contributor,
}
use kwaai_net_map.Document.Reading.Rows.{
  peer_row_from, read_peer_row, read_instant, snapshot_from, read_snapshot,
}
use kwaai_net_map.Document.Seen.{
  readable_block_span, readable_peer, seen_peer, readable_report, seen_report, readable_contributor,
  readable, seen,
}
use kwaai_net_map.Document.RoundTrip.{
  texts_back, peer_ip_info_back, model_report_back, contributor_back, issue_back, block_span_back,
}

optional_block_span_back :
    (o : Option BlockSpan)
    → optional read_block_span (some (write_option write_block_span o))
      ≡ when (every_some readable_block_span o) o
unfolding optional read_option write_block_span struct
optional_block_span_back none = refl
optional_block_span_back (some s) = rw (block_span_back s) (ground arith)

module _ (of_int : ℤ → F64) where
  peer_row_back :
      (r : PeerRow) → read_peer_row of_int (write_peer_row r) ≡ when (readable_peer r) (seen_peer r)
  unfolding read_peer_row write_peer_row peer_row_from read_text read_bool read_unsigned
  peer_row_back r =
      read_object-struct (peer_row_from of_int) _ refl
      ∙ rw
          (
            optional-text_or_null r.public_name,
            optional-text_or_null r.version,
            optional-text_or_null r.model,
            optional_block_span_back r.span,
            read_f64-write_f64 of_int r.throughput,
            optional-bool_or_null r.using_relay,
            optional-value_or_null r.vpk,
            peer_ip_info_back of_int r.peer_ip_info,
          )
          (ground arith)

  module _ (date_text : DateTime → String) (read_date : String → Option DateTime)
      (same_date : (t : DateTime) → read_date (date_text t) ≡ some t) where
    optional_date_back :
        (o : Option DateTime)
        → optional (read_instant of_int read_date) (map_option (λ t. Json.string (date_text t)) o)
          ≡ some o
    unfolding optional read_option
    optional_date_back none = refl
    optional_date_back (some t) = rw (same_date t) refl

    crawls_held_back :
        (n : ℕ)
        → defaulted read_u32 0 (if is_zero n then none else some (write_unsigned n))
          ≡ when (ltb n 4294967296) n
    unfolding is_zero read_unsigned
    crawls_held_back n = ground arith

    -- If chrono reads an instant's text as that instant, then a snapshot that is written and read
    -- again is refused exactly when it is not `readable`: a float that a record cannot do without is
    -- no number, or an integer is out of its type. Otherwise the reader gets it as it was, with the
    -- marks of holding that were skipped, up to what `seen` drops inside the records: an optional
    -- float that is no number, a `vpk` of null, and the peer id of a server's record.
    pub read_snapshot-write_snapshot :
        (s : Snapshot)
        → read_snapshot of_int read_date (write_snapshot date_text s) ≡ when (readable s) (seen s)
    unfolding read_snapshot write_snapshot snapshot_slots snapshot_from read_text read_unsigned
    read_snapshot-write_snapshot s =
        read_object-struct (snapshot_from of_int read_date) _ refl
        ∙ rw
            (
              texts_back of_int s.bootstrap_states,
              read_list-write_list write_model_report (read_model_report of_int) readable_report
                  seen_report (model_report_back of_int) s.model_reports,
              read_list-write_list write_contributor (read_contributor of_int) readable_contributor
                  (λ c. c) (contributor_back of_int) s.top_contributors,
              read_list-write_list write_issue read_issue (λ r. true) (λ r. r) issue_back
                  s.reachability_issues,
              same_date s.last_updated,
              read_f64-write_f64 of_int s.update_duration,
              optional_date_back s.stale_since,
              crawls_held_back s.crawls_held,
              read_list-write_list write_peer_row (read_peer_row of_int) readable_peer seen_peer
                  peer_row_back s.peers,
              map-id s.top_contributors,
              map-id s.reachability_issues,
            )
            (ground (arith, every_always s.reachability_issues))
