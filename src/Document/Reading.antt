-- ===== src/Document/Reading.antt =====
-- The readers that serde derives from the structs of map-server/src/snapshot.rs, on the objects of
-- a JSON value, in which no name is twice. `read_date` is chrono's parser, `of_int` the conversion of
-- an integer to a float.
pub mod Rows
use kwaai_net_map.Prelude.{ℕ, String, Option, none, some, [], ◌>>=◌}
use kwaai_net_map.Prelude.Int.{ℤ}
use kwaai_net_map.Prelude.F64.{F64}
use kwaai_net_map.Prelude.Json.{Json}
use kwaai_net_map.Snapshot.{
  DateTime, ServerInfo, Location, PeerIpInfo, PeerSpan, ServerRow, ModelReport, Contributor,
  ReachabilityIssue, BlockSpan, PeerRow, Snapshot,
}
use kwaai_net_map.Document.Slots.{read_object}
use kwaai_net_map.Document.Values.{
  read_text, read_bool, read_i64, read_unsigned, read_f64, read_list, required, defaulted, optional,
}

-- A reader's view of an object: the value under each name.
abbrev pub Found : Type 0
Found = String → Option Json

-- `usize` and `u64`, and `u32`.
abbrev pub read_u64 : Json → Option ℕ
read_u64 = read_unsigned 18446744073709551616

abbrev pub read_u32 : Json → Option ℕ
read_u32 = read_unsigned 4294967296

unfoldable pub issue_from : Found → Option ReachabilityIssue
issue_from found = do
  peer_id ← required read_text (found "peer_id")
  err ← required read_text (found "err")
  some (record { peer_id = peer_id; err = err })

unfoldable pub block_span_from : Found → Option BlockSpan
block_span_from found = do
  start ← required read_i64 (found "start")
  end ← required read_i64 (found "end")
  some (record { start = start; end = end })

unfoldable pub read_issue : Json → Option ReachabilityIssue
read_issue = read_object issue_from

unfoldable pub read_block_span : Json → Option BlockSpan
read_block_span = read_object block_span_from

module _ (of_int : ℤ → F64) where
  unfoldable pub server_info_from : Found → Option ServerInfo
  server_info_from found = do
    state ← required read_text (found "state")
    throughput ← required (read_f64 of_int) (found "throughput")
    start_block ← required read_i64 (found "start_block")
    end_block ← required read_i64 (found "end_block")
    public_name ← optional read_text (found "public_name")
    version ← optional read_text (found "version")
    network_rps ← optional (read_f64 of_int) (found "network_rps")
    forward_rps ← optional (read_f64 of_int) (found "forward_rps")
    inference_rps ← optional (read_f64 of_int) (found "inference_rps")
    torch_dtype ← optional read_text (found "torch_dtype")
    quant_type ← optional read_text (found "quant_type")
    using_relay ← optional read_bool (found "using_relay")
    cache_tokens_left ← optional read_i64 (found "cache_tokens_left")
    shard_loading ← optional read_bool (found "shard_loading")
    vpk ← optional some (found "vpk")
    trust_attestations ← defaulted read_u64 0 (found "trust_attestations")
    some (record {
      state = state;
      throughput = throughput;
      start_block = start_block;
      end_block = end_block;
      public_name = public_name;
      version = version;
      network_rps = network_rps;
      forward_rps = forward_rps;
      inference_rps = inference_rps;
      torch_dtype = torch_dtype;
      quant_type = quant_type;
      using_relay = using_relay;
      cache_tokens_left = cache_tokens_left;
      shard_loading = shard_loading;
      vpk = vpk;
      trust_attestations = trust_attestations;
      peer_id = none;
    })

  unfoldable pub location_from : Found → Option Location
  location_from found = do
    status ← required read_text (found "status")
    country ← defaulted read_text "" (found "country")
    city ← defaulted read_text "" (found "city")
    lat ← defaulted (read_f64 of_int) 0 (found "lat")
    lon ← defaulted (read_f64 of_int) 0 (found "lon")
    isp ← defaulted read_text "" (found "isp")
    some (record {
      status = status;
      country = country;
      city = city;
      lat = lat;
      lon = lon;
      isp = isp;
    })

  unfoldable pub read_server_info : Json → Option ServerInfo
  read_server_info = read_object server_info_from

  unfoldable pub read_location : Json → Option Location
  read_location = read_object location_from

  unfoldable pub peer_ip_info_from : Found → Option PeerIpInfo
  peer_ip_info_from found = do
    location ← required read_location (found "location")
    multiaddrs ← required (read_list read_text) (found "multiaddrs")
    reachability ← optional read_text (found "reachability")
    some (record { location = location; multiaddrs = multiaddrs; reachability = reachability })

  unfoldable pub read_peer_ip_info : Json → Option PeerIpInfo
  read_peer_ip_info = read_object peer_ip_info_from

  unfoldable pub peer_span_from : Found → Option PeerSpan
  peer_span_from found = do
    peer_id ← required read_text (found "peer_id")
    start ← required read_i64 (found "start")
    end ← required read_i64 (found "end")
    server_info ← required read_server_info (found "server_info")
    some (record { peer_id = peer_id; start = start; end = end; server_info = server_info })

  unfoldable pub read_peer_span : Json → Option PeerSpan
  read_peer_span = read_object peer_span_from

  unfoldable pub server_row_from : Found → Option ServerRow
  server_row_from found = do
    peer_id ← required read_text (found "peer_id")
    short_peer_id ← required read_text (found "short_peer_id")
    show_public_name ← required read_bool (found "show_public_name")
    state ← required read_text (found "state")
    peer_ip_info ← required read_peer_ip_info (found "peer_ip_info")
    span ← required read_peer_span (found "span")
    some (record {
      peer_id = peer_id;
      short_peer_id = short_peer_id;
      show_public_name = show_public_name;
      state = state;
      peer_ip_info = peer_ip_info;
      span = span;
    })

  unfoldable pub read_server_row : Json → Option ServerRow
  read_server_row = read_object server_row_from

  unfoldable pub model_report_from : Found → Option ModelReport
  model_report_from found = do
    name ← required read_text (found "name")
    short_name ← required read_text (found "short_name")
    dht_prefix ← required read_text (found "dht_prefix")
    repository ← required read_text (found "repository")
    num_blocks ← required read_i64 (found "num_blocks")
    state ← required read_text (found "state")
    server_rows ← required (read_list read_server_row) (found "server_rows")
    some (record {
      name = name;
      short_name = short_name;
      dht_prefix = dht_prefix;
      repository = repository;
      num_blocks = num_blocks;
      state = state;
      server_rows = server_rows;
    })

  unfoldable pub read_model_report : Json → Option ModelReport
  read_model_report = read_object model_report_from

  unfoldable pub contributor_from : Found → Option Contributor
  contributor_from found = do
    peer_id ← required read_text (found "peer_id")
    public_name ← optional read_text (found "public_name")
    throughput ← required (read_f64 of_int) (found "throughput")
    blocks ← required read_i64 (found "blocks")
    some (record {
      peer_id = peer_id;
      public_name = public_name;
      throughput = throughput;
      blocks = blocks;
    })

  unfoldable pub read_contributor : Json → Option Contributor
  read_contributor = read_object contributor_from
