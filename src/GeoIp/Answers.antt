-- ===== src/GeoIp/Answers.antt =====
-- The JSON that map-server/src/geoip.rs reads: the provider's answers in `fetch_batch`, and the
-- operator's file in `load_static`. The readers are those that serde derives, on objects in which no
-- field is twice.
use kwaai_net_map.Prelude.{String, Option, none, some, List, [], ◌>>=◌, Assoc, insert}
use kwaai_net_map.Prelude.Int.{ℤ}
use kwaai_net_map.Prelude.F64.{F64}
use kwaai_net_map.Prelude.Json.{Json, Members}
use kwaai_net_map.Document.Slots.{read_object}
use kwaai_net_map.Document.Values.{read_text, read_f64, read_list, defaulted}
use kwaai_net_map.GeoIp.{ApiEntry, StaticEntry}

-- The HTTP client: a request with the addresses as its JSON body, `error_for_status`, and the body
-- of a response as JSON.
pub record Client (Response : Type 0) : Type 0 where
  pub post : List String → Option Response
  pub error_for_status : Response → Option Response
  pub json : Response → Option Json

module _ (of_int : ℤ → F64) where
  -- Every field has `serde(default)`.
  unfoldable pub api_entry_from : (String → Option Json) → Option ApiEntry
  api_entry_from found = do
    status ← defaulted read_text "" (found "status")
    country ← defaulted read_text "" (found "country")
    city ← defaulted read_text "" (found "city")
    lat ← defaulted (read_f64 of_int) 0 (found "lat")
    lon ← defaulted (read_f64 of_int) 0 (found "lon")
    isp ← defaulted read_text "" (found "isp")
    query ← defaulted read_text "" (found "query")
    some (record {
      status = status;
      country = country;
      city = city;
      lat = lat;
      lon = lon;
      isp = isp;
      query = query;
    })

  unfoldable pub static_entry_from : (String → Option Json) → Option StaticEntry
  static_entry_from found = do
    country ← defaulted read_text "" (found "country")
    city ← defaulted read_text "" (found "city")
    lat ← defaulted (read_f64 of_int) 0 (found "lat")
    lon ← defaulted (read_f64 of_int) 0 (found "lon")
    isp ← defaulted read_text "" (found "isp")
    some (record { country = country; city = city; lat = lat; lon = lon; isp = isp })

  unfoldable pub read_api_entry : Json → Option ApiEntry
  unfolding read_object api_entry_from read_text read_f64
  read_api_entry = read_object api_entry_from

  unfoldable pub read_static_entry : Json → Option StaticEntry
  unfolding read_object static_entry_from read_text read_f64
  read_static_entry = read_object static_entry_from

  unfoldable pub fetch_batch :
      {Response : Type 0} → Client Response → List String → Option (List ApiEntry)
  unfolding read_list read_api_entry
  fetch_batch client ips = do
    response ← client.post ips
    accepted ← client.error_for_status response
    body ← client.json accepted
    read_list read_api_entry body

  -- A `HashMap<String, StaticEntry>` is read by inserting the members in their order.
  unfoldable pub insert_members : Members → Assoc StaticEntry → Option (Assoc StaticEntry)
  unfolding read_static_entry
  insert_members Members.end entries = some entries
  insert_members (Members.member ip v ms) entries = do
    e ← read_static_entry v
    insert_members ms (insert ip e entries)

  unfoldable pub read_entries : Json → Option (Assoc StaticEntry)
  unfolding insert_members
  read_entries (Json.object ms) = insert_members ms []
  read_entries _ = none

  module _ (read_to_string : String → Option String) (from_str : String → Option Json) where
    -- The file's reading and parsing in `load_static`.
    unfoldable pub parse_file : String → Option (Assoc StaticEntry)
    unfolding read_entries
    parse_file path = do text ← read_to_string path; v ← from_str text; read_entries v
