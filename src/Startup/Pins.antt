-- ===== src/Startup/Pins.antt =====
-- Where the operator's file puts a peer.
use kwaai_net_map.Prelude.{
  String, Bool, true, false, not, ◌&&◌, Option, none, some, List, [], ◌∷◌, ◌≡◌, refl, ap, ◌∙◌, ◌==◌,
  ◌⊎◌, if◌then◌else◌, ◌>>=◌, or_else, map_option, unwrap_or, is_some, is_empty, select, find_map,
  filter_map, All, arith, Assoc, lookup, insert, lookup-insert, Option-cases, inl, inr,
}
use mathlib.Core.Path.{fun_ext, sym}
use kwaai_net_map.Prelude.Int.{ℤ}
use kwaai_net_map.Prelude.F64.{F64}
use kwaai_net_map.Prelude.Json.{Json, Members}
use kwaai_net_map.Text.Splits.{split_once_absent}
use kwaai_net_map.Snapshot.{Location}
use kwaai_net_map.Multiaddr.{IpAddr, ip_of}
use kwaai_net_map.GeoIp.{
  GeoIp, StaticEntry, load_static, is_circuit_addr, pin_of, relay_part, static_for, locate,
  locate_relay, cached,
}
use kwaai_net_map.Startup.{Vars, from_env}
use kwaai_net_map.GeoIp.Answers.{read_static_entry, insert_members, read_entries, parse_file}

-- The place that an entry names, always a success.
abbrev pub place : StaticEntry → Location
place e = record {
  status = "success";
  country = e.country;
  city = e.city;
  lat = e.lat;
  lon = e.lon;
  isp = e.isp;
}

lookup-load_static :
    (ip : String) (entries : Assoc StaticEntry)
    → lookup ip (load_static (some entries)) ≡ map_option place (lookup ip entries)
unfolding lookup load_static
lookup-load_static ip [] = refl
lookup-load_static ip (e ∷ entries) = ground (arith, lookup-load_static ip entries)

lookup-parsed :
    (ip : String) (parsed : Option (Assoc StaticEntry))
    → lookup ip (load_static parsed) ≡ map_option place (parsed >>= lookup ip)
unfolding load_static lookup
lookup-parsed ip none = refl
lookup-parsed ip (some entries) = lookup-load_static ip entries

module _ (of_int : ℤ → F64) where
  -- Every value of the file's object is an entry.
  abbrev pub all_entries : Members → Bool
  all_entries Members.end = true
  all_entries (Members.member ip v ms) = is_some (read_static_entry of_int v) && all_entries ms

  -- The last entry of the file under the address.
  abbrev pub entry_of : String → Members → Option StaticEntry
  entry_of ip Members.end = none
  entry_of ip (Members.member name v ms) =
      or_else (entry_of ip ms) (if name == ip then read_static_entry of_int v else none)

  -- The file's place for the address: one value that is no entry spoils the whole file.
  abbrev pub file_place : Members → String → Option Location
  file_place ms ip = if all_entries ms then map_option place (entry_of ip ms) else none

  lookup-insert_members :
      (ip : String) (ms : Members) (entries : Assoc StaticEntry)
      → (insert_members of_int ms entries >>= lookup ip)
        ≡ (if all_entries ms then or_else (entry_of ip ms) (lookup ip entries) else none)
  unfolding insert_members
  lookup-insert_members ip Members.end entries = refl
  lookup-insert_members ip (Members.member name v ms) entries =
      elim (Option-cases (read_static_entry of_int v)) [
        | inl bad ↦ ground arith
        | inr (e, good) ↦ rw good (
            lookup-insert_members ip ms (insert name e entries)
            ∙ ground (arith, lookup-insert name ip e entries))
      ]

  lookup-file :
      (ip : String) (ms : Members)
      → lookup ip (load_static (read_entries of_int (Json.object ms))) ≡ file_place ms ip
  unfolding read_entries lookup
  lookup-file ip ms =
      lookup-parsed ip (insert_members of_int ms [])
      ∙ ap (map_option place) (lookup-insert_members ip ms [])
      ∙ ground arith

List-cases {ℓ} : {A : Type ℓ} (l : List A) → (l ≡ []) ⊎ (is_empty l ≡ false)
List-cases [] = inl refl
List-cases (x ∷ l) = inr refl

or_else-none {ℓ} : {A : Type ℓ} (o : Option A) → or_else o none ≡ o
or_else-none none = refl
or_else-none (some a) = refl

-- The address goes through no relay.
abbrev pub IsPlain : String → Type 0
IsPlain a = is_circuit_addr a ≡ false

select-plain :
    (addrs : List String) → All IsPlain addrs → select (λ a. not (is_circuit_addr a)) addrs ≡ addrs
select-plain [] h = refl
select-plain (a ∷ addrs) h = ground (arith, select-plain addrs h.1)

module _ (parse_ip : String → Option IpAddr) where
  relay_part-plain :
      (addrs : List String) → All IsPlain addrs → filter_map (relay_part parse_ip) addrs ≡ []
  relay_part-plain [] h = refl
  relay_part-plain (a ∷ addrs) h =
      ground (arith, split_once_absent "/p2p-circuit" a h.0, relay_part-plain addrs h.1)

  locate-unpinned :
      (geo : GeoIp) (addrs : List String)
      → static_for parse_ip geo addrs ≡ none
      → locate parse_ip geo addrs ≡ locate parse_ip (record geo { statics = [] }) addrs
  unfolding locate static_for locate_relay cached
  locate-unpinned geo addrs h = rw (h, locate, static_for) refl

  locate-pinned :
      (geo : GeoIp) (addrs : List String) (found : Option Location)
      → static_for parse_ip geo addrs ≡ found
      → locate parse_ip geo addrs
        ≡ unwrap_or found (locate parse_ip (record geo { statics = [] }) addrs)
  locate-pinned geo addrs none h = locate-unpinned geo addrs h
  locate-pinned geo addrs (some loc) h = unfold locate in rw (h, locate) refl

  no_pins : (addrs : List String) → find_map (pin_of parse_ip []) addrs ≡ none
  unfolding lookup
  no_pins [] = refl
  no_pins (a ∷ addrs) = elim (Option-cases (ip_of parse_ip a)) [
    | inl no_ip ↦ rw (no_ip, find_map) (no_pins addrs)
    | inr (ip, has_ip) ↦ rw (has_ip, find_map) (no_pins addrs)
  ]

  static_for-plain :
      (geo : GeoIp) (addrs : List String)
      → All IsPlain addrs
      → static_for parse_ip geo addrs ≡ find_map (pin_of parse_ip geo.statics) addrs
  unfolding static_for
  static_for-plain geo addrs h = elim (List-cases geo.statics) [
    | inl empty ↦ rw empty (sym (no_pins addrs))
    | inr used ↦
        rw (used, select-plain addrs h, relay_part-plain addrs h)
          (or_else-none (find_map (pin_of parse_ip geo.statics) addrs))
  ]

  module _ (of_int : ℤ → F64) (read_to_string : String → Option String)
      (from_str : String → Option Json) where
    file_statics :
        (vars : Vars) (path text : String) (ms : Members)
        → vars "GEOIP_STATIC_FILE" ≡ some path
        → read_to_string path ≡ some text
        → from_str text ≡ some (Json.object ms)
        → (ip : String)
        → lookup ip (from_env (parse_file of_int read_to_string from_str) vars).statics
          ≡ file_place of_int ms ip
    unfolding from_env parse_file read_entries
    file_statics vars path text ms named read parsed ip =
        rw (named, read, parsed) (lookup-file of_int ip ms)

    -- If `GEOIP_STATIC_FILE` names a file that reads as an object, and a peer is seen on addresses
    -- that go through no relay, then whatever the caches hold and whether lookups are on or off, it
    -- is placed where the file says for the first of its IPs that the file places, and, if it places
    -- none, where it would be without a file. One value of the object that is no entry, anywhere in
    -- the file, and the file places nothing.
    pub locate-from_env :
        (vars : Vars) (path text : String) (ms : Members)
        → vars "GEOIP_STATIC_FILE" ≡ some path
        → read_to_string path ≡ some text
        → from_str text ≡ some (Json.object ms)
        → (geo : GeoIp) (addrs : List String)
        → geo.statics ≡ (from_env (parse_file of_int read_to_string from_str) vars).statics
        → All IsPlain addrs
        → locate parse_ip geo addrs
          ≡ unwrap_or
              (find_map (λ a. ip_of parse_ip a >>= file_place of_int ms) addrs)
              (locate parse_ip (record geo { statics = [] }) addrs)
    locate-from_env vars path text ms named read parsed geo addrs pinned plain =
        let places : find_map (pin_of parse_ip geo.statics) addrs
            ≡ find_map (λ a. ip_of parse_ip a >>= file_place of_int ms) addrs =
          ap
            (λ (place_of : String → Option Location).
              find_map (λ a. ip_of parse_ip a >>= place_of) addrs)
            (fun_ext (λ ip.
              ap (lookup ip) pinned ∙ file_statics vars path text ms named read parsed ip)) in
        locate-pinned geo addrs _ (static_for-plain geo addrs plain ∙ places)
