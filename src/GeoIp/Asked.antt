-- ===== src/GeoIp/Asked.antt =====
-- The provider is asked only about addresses for which `is_public` holds, if the resolver's texts are
-- those of its addresses.
use mathlib.Core.Path.{subst}
use kwaai_net_map.Prelude.{
  ℕ, zero, suc, String, Bool, not, Option, none, some, List, [], ◌∷◌, ◌≡◌, refl, ◌>>=◌, ◌==◌,
  if◌then◌else◌, arith, All, Assoc, lookup, insert, find_map, select, take, drop, Bool-cases,
  Option-cases, inl, inr,
}
use kwaai_net_map.Prelude.Sorting.{text_set}
use kwaai_net_map.Prelude.Order.{All-insert_text}
use kwaai_net_map.Multiaddr.{IpAddr, is_public}
use kwaai_net_map.Multiaddr.Public.{IsPublicText}
use kwaai_net_map.Snapshot.{Location}
use kwaai_net_map.GeoIp.{
  GeoIp, ApiEntry, resolve_one, resolve_names, chunks, pending, store, fetch_all, batches_of, warm,
}

module _ (P : String → Type 0) where
  All-text_set : (l : List String) → All P l → All P (text_set l)
  unfolding text_set
  All-text_set [] h = tt
  All-text_set (k ∷ l) h = All-insert_text P k (text_set l) h.0 (All-text_set l h.1)

  All-select : (p : String → Bool) (l : List String) → All P l → All P (select p l)
  All-select p [] h = tt
  All-select p (k ∷ l) h = elim (Bool-cases (p k)) [
    | inl kept ↦ rw kept (h.0, All-select p l h.1)
    | inr dropped ↦ rw dropped (All-select p l h.1)
  ]

  All-take : (n : ℕ) (l : List String) → All P l → All P (take n l)
  All-take zero l h = tt
  All-take (suc n) [] h = tt
  All-take (suc n) (k ∷ l) h = (h.0, All-take n l h.1)

  All-drop : (n : ℕ) (l : List String) → All P l → All P (drop n l)
  All-drop zero l h = h
  All-drop (suc n) [] h = tt
  All-drop (suc n) (k ∷ l) h = All-drop n l h.1

  All-chunks_of : (fuel n : ℕ) (l : List String) → All P l → All (λ b. All P b) (chunks fuel n l)
  unfolding chunks
  All-chunks_of zero n l h = tt
  All-chunks_of (suc fuel) n [] h = tt
  All-chunks_of (suc fuel) n (k ∷ l) h =
      (All-take n (k ∷ l) h, All-chunks_of fuel n (drop n (k ∷ l)) (All-drop n (k ∷ l) h))

  -- The same answers to the requests that hold such addresses only.
  module _ (fetch other : List String → Option (List ApiEntry))
      (agree : (batch : List String) → All P batch → other batch ≡ fetch batch) where
    fetch_all_same :
        (batches : List (List String)) (cache : Assoc Location)
        → All (λ b. All P b) batches
        → fetch_all other batches cache ≡ fetch_all fetch batches cache
    unfolding fetch_all
    fetch_all_same [] cache h = refl
    fetch_all_same (batch ∷ batches) cache h = elim (Option-cases (fetch batch)) [
      | inl failed ↦ rw (agree batch h.0, failed, fetch_all) refl
      | inr (entries, got) ↦
          rw (agree batch h.0, got, fetch_all) (fetch_all_same batches (store cache entries) h.1)
    ]

    pub warm_same :
        (ips : List String) (geo : GeoIp) → All P ips → warm other ips geo ≡ warm fetch ips geo
    unfolding warm pending
    warm_same ips geo h =
        let asked : All P (pending geo ips) = All-text_set _ (All-select _ ips h) in
        rw (fetch_all_same (batches_of (pending geo ips)) geo.cache (All-chunks_of _ 100 _ asked))
          refl

module _ (parse_ip : String → Option IpAddr) where
  -- Every address that a relay's name was resolved to is public.
  abbrev pub IsPublicDns : Assoc String → Type 0
  IsPublicDns dns = All (λ e. IsPublicText parse_ip e.1) dns

  -- The resolver gives each address with a text that parses as it.
  abbrev pub HasTexts : (String → Option (List (IpAddr × String))) → Type 0
  HasTexts lookup_host =
      (name : String) (found : List (IpAddr × String))
      → lookup_host name ≡ some found
      → All (λ r. parse_ip r.1 ≡ some r.0) found

  abbrev public_text : IpAddr × String → Option String
  public_text r = if is_public r.0 then some r.1 else none

  IsPublicText-find_map :
      (found : List (IpAddr × String)) (ip : String)
      → All (λ r. parse_ip r.1 ≡ some r.0) found
      → find_map public_text found ≡ some ip
      → IsPublicText parse_ip ip
  IsPublicText-find_map [] ip h e = absurd (ground arith)
  IsPublicText-find_map (r ∷ found) ip h e = elim (Bool-cases (is_public r.0)) [
    | inl shown ↦ (r.0, ground (arith, h.0), shown)
    | inr hidden ↦ IsPublicText-find_map found ip h.1 (ground arith)
  ]

  IsPublicDns-lookup :
      (name ip : String) (dns : Assoc String)
      → IsPublicDns dns
      → lookup name dns ≡ some ip
      → IsPublicText parse_ip ip
  unfolding lookup
  IsPublicDns-lookup name ip [] h e = absurd (ground arith)
  IsPublicDns-lookup name ip (d ∷ dns) h e = elim (Bool-cases (d.0 == name)) [
    | inl here ↦ subst (IsPublicText parse_ip) (ground arith) h.0
    | inr later ↦ IsPublicDns-lookup name ip dns h.1 (ground arith)
  ]

  IsPublicDns-insert :
      (name ip : String) (dns : Assoc String)
      → IsPublicText parse_ip ip
      → IsPublicDns dns
      → IsPublicDns (insert name ip dns)
  unfolding insert
  IsPublicDns-insert name ip [] p h = (p, tt)
  IsPublicDns-insert name ip (d ∷ dns) p h = elim (Bool-cases (d.0 == name)) [
    | inl here ↦ rw here (p, h.1)
    | inr later ↦ rw later (h.0, IsPublicDns-insert name ip dns p h.1)
  ]

  module _ (lookup_host : String → Option (List (IpAddr × String)))
      (texts : HasTexts lookup_host) where
    abbrev IsPublicOption : Option String → Type 0
    IsPublicOption none = Unit
    IsPublicOption (some ip) = IsPublicText parse_ip ip

    found_public :
        (name ip : String)
        → (lookup_host name >>= find_map public_text) ≡ some ip
        → IsPublicText parse_ip ip
    found_public name ip e = elim (Option-cases (lookup_host name)) [
      | inl failed ↦ absurd (ground arith)
      | inr (found, got) ↦ IsPublicText-find_map found ip (texts name found got) (ground arith)
    ]

    resolve_one_public :
        (name : String) (geo : GeoIp)
        → IsPublicDns geo.dns
        → IsPublicOption (resolve_one parse_ip lookup_host name geo).0
          × IsPublicDns (resolve_one parse_ip lookup_host name geo).1.dns
    unfolding resolve_one
    resolve_one_public name geo h = elim (Option-cases (lookup name geo.dns)) [
      | inr (ip, known) ↦ rw (known, resolve_one) (IsPublicDns-lookup name ip geo.dns h known, h)
      | inl unknown ↦ elim (Bool-cases (not geo.enabled)) [
        | inl off ↦ rw (unknown, resolve_one, off) (tt, h)
        | inr on ↦ elim (Option-cases (lookup_host name >>= find_map public_text)) [
          | inl failed ↦ rw (unknown, resolve_one, on, failed) (tt, h)
          | inr (ip, found) ↦
              let p = found_public name ip found in
              rw (unknown, resolve_one, on, found) (p, IsPublicDns-insert name ip geo.dns p h)
        ]
      ]
    ]

    pub resolve_names_public :
        (names : List String) (geo : GeoIp)
        → IsPublicDns geo.dns
        → All (IsPublicText parse_ip) (resolve_names parse_ip lookup_host names geo).0
          × IsPublicDns (resolve_names parse_ip lookup_host names geo).1.dns
    unfolding resolve_names
    resolve_names_public [] geo h = (tt, h)
    resolve_names_public (name ∷ names) geo h =
        let (one, dns) = resolve_one_public name geo h in
        let (rest, dns') = resolve_names_public names _ dns in (with_one _ _ one rest, dns')
      where
        with_one :
            (o : Option String) (out : List String)
            → IsPublicOption o
            → All (IsPublicText parse_ip) out
            → All (IsPublicText parse_ip) (elim o [ none ↦ out | some ip ↦ ip ∷ out ])
        with_one none out p q = q
        with_one (some ip) out p q = (p, q)
