-- ===== src/Tests/Pins.antt =====
-- An operator's file, with one entry and with a value that is no entry.
use kwaai_net_map.Prelude.Sorting.{member}
use kwaai_net_map.Prelude.{leb, length, lookup, is_some, ◌||◌}
use kwaai_net_map.Prelude.{
  String, true, Option, none, some, List, [], ◌∷◌, ◌≡◌, refl, ◌==◌, if◌then◌else◌, map, arith,
  unwrap_or, find_map, ◌>>=◌,
}
use kwaai_net_map.Prelude.Int.{ℤ}
use kwaai_net_map.Prelude.F64.{F64}
use kwaai_net_map.Prelude.Json.{Json, Members}
use kwaai_net_map.Text.{contains}
use kwaai_net_map.Multiaddr.{IpAddr, v4, ip_of}
use kwaai_net_map.GeoIp.{GeoIp, ApiEntry, locate, pending, warm}
use kwaai_net_map.GeoIp.Answers.{Client, fetch_batch, parse_file, read_static_entry, read_api_entry}
use kwaai_net_map.GeoIp.Warming.{Answers, warm_again}
use kwaai_net_map.Document.Values.{read_items, write_items}
use kwaai_net_map.Startup.{Vars, from_env}
use kwaai_net_map.Startup.Pins.{file_place, locate-from_env}

abbrev of_int : ℤ → F64
of_int z = 1

abbrev parse_ip : String → Option IpAddr
parse_ip s = if s == "10.0.0.7" then some (v4 10 0 0 7) else none

abbrev vars : Vars
vars name =
    if name == "GEOIP_STATIC_FILE"
    then some "pins.json"
    else if name == "GEOIP_ENABLED"
    then some "0"
    else none

abbrev entry : Json
entry = Json.object (Members.member "city" (Json.string "Norwell") Members.end)

abbrev pins : Members
pins = Members.member "10.0.0.7" entry Members.end

-- The same, and a value that is no entry.
abbrev spoiled : Members
spoiled = Members.member "10.0.0.8" (Json.bool true) pins

abbrev read_to_string : String → Option String
read_to_string path = if path == "pins.json" then some "the text" else none

abbrev parsed_as : Members → String → Option Json
parsed_as ms text = if text == "the text" then some (Json.object ms) else none

abbrev geo_with : Members → GeoIp
geo_with ms = from_env (parse_file of_int read_to_string (parsed_as ms)) vars

abbrev seen : List String
seen = "/ip4/10.0.0.7/tcp/1" ∷ []

locate-from_env_example :
    locate parse_ip (geo_with pins) seen
    ≡ unwrap_or
        (find_map (λ a. ip_of parse_ip a >>= file_place of_int pins) seen)
        (locate parse_ip (record (geo_with pins) { statics = [] }) seen)
unfolding contains
locate-from_env_example =
    locate-from_env parse_ip of_int read_to_string (parsed_as pins) vars "pins.json" "the text" pins
      refl refl refl (geo_with pins) seen refl (refl, tt)

-- A private address, with lookups off, in the file's city; and what a bad value costs.
pinned_test :
    (find_map (λ a. ip_of parse_ip a >>= file_place of_int pins) seen
      ≡ some (record {
        status = "success";
        country = "";
        city = "Norwell";
        lat = 0;
        lon = 0;
        isp = "";
      }))
    × (find_map (λ a. ip_of parse_ip a >>= file_place of_int spoiled) seen ≡ none)
unfolding ip_of read_static_entry
pinned_test = (refl, refl)

-- The provider's answer to an address that it cannot place, and a client that gets it.
abbrev refusal : String → Json
refusal ip = Json.object (
    Members.member "status" (Json.string "fail")
      (Members.member "query" (Json.string ip) Members.end))

abbrev client : Client (List String)
client = record {
  post = λ ips. if leb (length ips) 100 then some ips else none;
  error_for_status = λ ips. some ips;
  json = λ ips. some (Json.array (write_items refusal ips));
}

abbrev refused : String → ApiEntry
refused ip = record {
  status = "fail";
  country = "";
  city = "";
  lat = 0;
  lon = 0;
  isp = "";
  query = ip;
}

read_refusals :
    (ips : List String)
    → read_items (read_api_entry of_int) (write_items refusal ips) ≡ some (map refused ips)
unfolding read_api_entry
read_refusals [] = refl
read_refusals (ip ∷ ips) = rw (read_refusals ips) refl

asked_back : (ips : List String) → map (λ e. e.query) (map refused ips) ≡ ips
asked_back [] = refl
asked_back (ip ∷ ips) = cc (asked_back ips)

refuses : Answers (fetch_batch of_int client)
unfolding fetch_batch
refuses ips small = (map refused ips, ground (arith, read_refusals ips), asked_back ips)

abbrev looking : GeoIp
looking = record { cache = []; dns = []; enabled = true; statics = [] }

warm_again_example :
    (is_some (lookup "8.8.8.8" (warm (fetch_batch of_int client) ("8.8.8.8" ∷ []) looking).cache)
      ≡ (member "8.8.8.8" ("8.8.8.8" ∷ []) || is_some (lookup "8.8.8.8" looking.cache)))
    × (pending (warm (fetch_batch of_int client) ("8.8.8.8" ∷ []) looking) ("8.8.8.8" ∷ []) ≡ [])
    × (warm
          (λ ips. none)
          ("8.8.8.8" ∷ [])
          (warm (fetch_batch of_int client) ("8.8.8.8" ∷ []) looking)
        ≡ warm (fetch_batch of_int client) ("8.8.8.8" ∷ []) looking)
warm_again_example =
    warm_again (fetch_batch of_int client) refuses (λ ips. none) looking ("8.8.8.8" ∷ []) "8.8.8.8"
      refl (omega arith)
