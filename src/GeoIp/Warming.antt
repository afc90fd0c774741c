-- ===== src/GeoIp/Warming.antt =====
-- What `warm` asks the provider, and what is cached afterwards.
use kwaai_net_map.Prelude.{
  ℕ, zero, suc, ◌≤◌, ◌<◌, String, true, false, not, ◌&&◌, ◌||◌, Option, some, List, [], ◌∷◌, ◌++◌,
  map, ◌≡◌, refl, ap, ◌∙◌, is_some, length, eq_refl, take, drop, take-append-drop, length-take-le,
  length-drop, All, arith, leb, Assoc, lookup, insert, lookup-insert,
}
use kwaai_net_map.Prelude.Sorting.{member, member-text_set, member-append, member-select}
use kwaai_net_map.Snapshot.{Location}
use kwaai_net_map.GeoIp.{
  GeoIp, ApiEntry, chunks, pending, location_of, store, fetch_all, batches_of, warm,
}

abbrev pub concat : List (List String) → List String
concat [] = []
concat (b ∷ batches) = b ++ concat batches

concat-chunks :
    (fuel n : ℕ) (l : List String) → 0 < n → length l ≤ fuel → concat (chunks fuel n l) ≡ l
unfolding chunks
concat-chunks zero n [] h k = refl
concat-chunks zero n (x ∷ l) h k = absurd (omega arith)
concat-chunks (suc fuel) n [] h k = refl
concat-chunks (suc fuel) n (x ∷ l) h k =
    ap (λ (r : List String). take n (x ∷ l) ++ r)
      (concat-chunks fuel n (drop n (x ∷ l)) h (omega (arith, length-drop n (x ∷ l))))
    ∙ take-append-drop n (x ∷ l)

All-chunks : (fuel n : ℕ) (l : List String) → All (λ b. length b ≤ n) (chunks fuel n l)
unfolding chunks
All-chunks zero n l = tt
All-chunks (suc fuel) n [] = tt
All-chunks (suc fuel) n (x ∷ l) = (length-take-le n (x ∷ l), All-chunks fuel n (drop n (x ∷ l)))

pub pending_requests :
    (geo : GeoIp) (ips : List String) (ip : String)
    → (member ip (pending geo ips) ≡ (not (is_some (lookup ip geo.cache)) && member ip ips))
      × (concat (batches_of (pending geo ips)) ≡ pending geo ips)
      × All (λ b. length b ≤ 100) (batches_of (pending geo ips))
unfolding pending
pending_requests geo ips ip = (
  member-text_set ip _ ∙ member-select (λ i. not (is_some (lookup i geo.cache))) ip ips,
  concat-chunks _ 100 (pending geo ips) (omega arith) (omega arith),
  All-chunks _ 100 (pending geo ips),
)

-- The provider answers every address of a request that is within its limit of 100 addresses, under
-- the address that was asked.
abbrev pub Answers : (List String → Option (List ApiEntry)) → Type 0
Answers fetch =
    (batch : List String)
    → length batch ≤ 100
    → (entries : List ApiEntry) × (fetch batch ≡ some entries)
      × (map (λ e. e.query) entries ≡ batch)

cached_in-store :
    (ip : String) (cache : Assoc Location) (entries : List ApiEntry)
    → is_some (lookup ip (store cache entries))
      ≡ (member ip (map (λ e. e.query) entries) || is_some (lookup ip cache))
unfolding store
cached_in-store ip cache [] = refl
cached_in-store ip cache (e ∷ entries) =
    cached_in-store ip (insert e.query (location_of e) cache) entries
    ∙ ground (arith, lookup-insert e.query ip (location_of e) cache)

nil_of_member : (l : List String) → ((ip : String) → member ip l ≡ false) → l ≡ []
nil_of_member [] h = refl
nil_of_member (ip ∷ l) h = absurd (ground (arith, h ip, eq_refl ip))

warm_nothing :
    (fetch : List String → Option (List ApiEntry)) (ips : List String) (geo : GeoIp)
    → pending geo ips ≡ []
    → warm fetch ips geo ≡ geo
unfolding warm fetch_all chunks
warm_nothing fetch ips geo h = rw h (ground arith)

module _ (fetch : List String → Option (List ApiEntry)) (answers : Answers fetch) where
  cached_in-fetch_all :
      (ip : String) (batches : List (List String)) (cache : Assoc Location)
      → All (λ b. length b ≤ 100) batches
      → is_some (lookup ip (fetch_all fetch batches cache))
        ≡ (member ip (concat batches) || is_some (lookup ip cache))
  unfolding fetch_all
  cached_in-fetch_all ip [] cache small = refl
  cached_in-fetch_all ip (batch ∷ batches) cache small =
      let (entries, found, asked) = answers batch small.0 in
      rw (found, fetch_all)
        (cached_in-fetch_all ip batches (store cache entries) small.1
          ∙ ground (
            arith,
            cached_in-store ip cache entries,
            ap (member ip) asked,
            member-append ip batch (concat batches),
          ))

  pub cached_after_warm :
      (geo : GeoIp) (ips : List String) (ip : String)
      → geo.enabled ≡ true
      → length geo.cache < 50000
      → is_some (lookup ip (warm fetch ips geo).cache)
        ≡ (member ip ips || is_some (lookup ip geo.cache))
  unfolding warm
  cached_after_warm geo ips ip on room =
      let (asked, together, small) = pending_requests geo ips ip in
      let test : (not geo.enabled || leb 50000 (length geo.cache)) ≡ false = ground arith in
      rw test (
        cached_in-fetch_all ip (batches_of (pending geo ips)) geo.cache small
        ∙ ground (arith, asked, ap (member ip) together))

  -- If lookups are on, the cache is below its ceiling, and the provider answers every request of at
  -- most 100 addresses, then however many addresses are given to `warm`, afterwards an address is
  -- cached exactly when it was before or was among them. Nothing of them is then pending, and a second
  -- `warm` of them changes nothing, whatever the provider would then answer.
  pub warm_again :
      (again : List String → Option (List ApiEntry)) (geo : GeoIp) (ips : List String) (ip : String)
      → geo.enabled ≡ true
      → length geo.cache < 50000
      → (is_some (lookup ip (warm fetch ips geo).cache)
          ≡ (member ip ips || is_some (lookup ip geo.cache)))
        × (pending (warm fetch ips geo) ips ≡ [])
        × (warm again ips (warm fetch ips geo) ≡ warm fetch ips geo)
  warm_again again geo ips ip on room =
      let done : pending (warm fetch ips geo) ips ≡ [] = nil_of_member _ (λ j. ground (
        arith,
        (pending_requests (warm fetch ips geo) ips j).0,
        cached_after_warm geo ips j on room,
      )) in
      (cached_after_warm geo ips ip on room, done, warm_nothing again ips (warm fetch ips geo) done)
