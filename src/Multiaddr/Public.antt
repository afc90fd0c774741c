-- ===== src/Multiaddr/Public.antt =====
-- Only addresses for which `is_public` holds are asked about, and which those are.
use Prim.Native.Nat.{bit_and}
use kwaai_net_map.Prelude.{
  All-append, ℕ, zero, suc, ◌+◌, ◌*◌, ◌/◌, ◌^◌, ◌<◌, String, Bool, true, false, not, ◌&&◌, ◌||◌,
  Option, some, List, [], ◌∷◌, ◌≡◌, refl, ◌∙◌, filter_map, All, arith, eqb, leb, ltb, any,
  Option-cases, inl, inr,
}
use kwaai_net_map.Text.{split_once}
use kwaai_net_map.Multiaddr.{
  IpAddr, v4, v6, is_public, is_broadcast, is_unspecified, ip_of, public_ip_of, relay_ip_of,
  public_ips,
}

All-filter_map :
    {B : Type 0} (P : B → Type 0) (f : String → Option B)
    → ((s : String) (b : B) → f s ≡ some b → P b)
    → (l : List String) → All P (filter_map f l)
All-filter_map P f h [] = tt
All-filter_map P f h (s ∷ l) = elim (Option-cases (f s)) [
  | inl e ↦ ground (arith, All-filter_map P f h l)
  | inr (b, e) ↦ ground (arith, All-filter_map P f h l, h s b e)
]

same : Bool → Bool → Bool
same true b = b
same false b = not b

same_sound : (x y : Bool) → same x y ≡ true → x ≡ y
unfolding same
same_sound x y h = ground arith

module _ (parse_ip : String → Option IpAddr) where
  -- The text is an IP address for which `is_public` holds.
  abbrev pub IsPublicText : String → Type 0
  IsPublicText raw = (ip : IpAddr) × (parse_ip raw ≡ some ip) × (is_public ip ≡ true)

  public_ip_of-IsPublicText :
      (addr raw : String) → public_ip_of parse_ip addr ≡ some raw → IsPublicText raw
  unfolding public_ip_of
  public_ip_of-IsPublicText addr raw e = elim (Option-cases (ip_of parse_ip addr)) [
    | inl missing ↦ absurd (ground arith)
    | inr (r, found) ↦ elim (Option-cases (parse_ip r)) [
      | inl bad ↦ absurd (ground arith)
      | inr (ip, parsed) ↦ (ip, ground arith, ground arith)
    ]
  ]

  relay_ip_of-IsPublicText :
      (addr raw : String) → relay_ip_of parse_ip addr ≡ some raw → IsPublicText raw
  unfolding relay_ip_of
  relay_ip_of-IsPublicText addr raw e = elim (Option-cases (split_once "/p2p-circuit" addr)) [
    | inl plain ↦ absurd (ground arith)
    | inr (parts, split) ↦ public_ip_of-IsPublicText parts.0 raw (ground arith)
  ]

  -- Whatever addresses the peers are seen on, each address handed on for lookup is an IP address
  -- for which `is_public` holds.
  pub public_ips-IsPublicText : (addrs : List String) → All IsPublicText (public_ips parse_ip addrs)
  unfolding public_ips
  public_ips-IsPublicText addrs =
      All-append IsPublicText _ _
        (All-filter_map IsPublicText (public_ip_of parse_ip) public_ip_of-IsPublicText addrs)
        (All-filter_map IsPublicText (relay_ip_of parse_ip) relay_ip_of-IsPublicText addrs)

-- The ranges that are kept back, as a network address and the size of the range.
abbrev pub withheld_ranges : List (ℕ × ℕ)
withheld_ranges =
    (0x0a000000, 0x1000000)
    ∷ (0xac100000, 0x100000)
    ∷ (0xc0a80000, 0x10000)
    ∷ (0x7f000000, 0x1000000)
    ∷ (0xa9fe0000, 0x10000)
    ∷ (0xffffffff, 1)
    ∷ (0xc0000200, 0x100)
    ∷ (0xc6336400, 0x100)
    ∷ (0xcb007100, 0x100)
    ∷ (0, 1)
    ∷ (0xc6120000, 0x20000)
    ∷ (0x64400000, 0x400000)
    ∷ []

abbrev pub address : ℕ → ℕ → ℕ → ℕ → ℕ
address a b c d = a * 16777216 + b * 65536 + c * 256 + d

-- The test passes for every octet below the bound.
passes_to : (ℕ → Bool) → ℕ → Bool
passes_to test zero = true
passes_to test (suc top) = passes_to test top && test top

passes :
    (test : ℕ → Bool) (top octet : ℕ) → octet < top → passes_to test top ≡ true → test octet ≡ true
unfolding passes_to
passes test zero octet lt every = absurd (omega arith)
passes test (suc top) octet lt every = ground (arith, passes test top octet)

mask_table : passes_to (λ b. same (eqb (bit_and b 0xfe) 18) (eqb b 18 || eqb b 19)) 256 ≡ true
unfolding passes_to same
mask_table = refl

mask_lem : (b : ℕ) → b < 256 → eqb (bit_and b 0xfe) 18 ≡ (eqb b 18 || eqb b 19)
mask_lem b h = same_sound _ _ (passes _ 256 b h mask_table)

abbrev pub in_range : ℕ → ℕ → ℕ → Bool
in_range base size x = leb base x && ltb x (base + size)

or_assoc : (x y z : Bool) → ((x || y) || z) ≡ (x || (y || z))
or_assoc x y z = ground arith

or_false : (x : Bool) → (x || false) ≡ x
or_false x = ground arith

module _ (a b c d : ℕ) (ha : a < 256) (hb : b < 256) (hc : c < 256) (hd : d < 256) where
  ten : eqb a 10 ≡ in_range 0x0a000000 0x1000000 (address a b c d)
  ten = ground (arith)

  private_172 :
      (eqb a 172 && (leb 16 b && leb b 31)) ≡ in_range 0xac100000 0x100000 (address a b c d)
  private_172 = ground (arith)

  private_192 : (eqb a 192 && eqb b 168) ≡ in_range 0xc0a80000 0x10000 (address a b c d)
  private_192 = ground (arith)

  loopback : eqb a 127 ≡ in_range 0x7f000000 0x1000000 (address a b c d)
  loopback = ground (arith)

  link_local : (eqb a 169 && eqb b 254) ≡ in_range 0xa9fe0000 0x10000 (address a b c d)
  link_local = ground (arith)

  broadcast : is_broadcast a b c d ≡ in_range 0xffffffff 1 (address a b c d)
  broadcast = ground (arith)

  test_net_1 : (eqb a 192 && eqb b 0 && eqb c 2) ≡ in_range 0xc0000200 0x100 (address a b c d)
  test_net_1 = ground (arith)

  test_net_2 : (eqb a 198 && eqb b 51 && eqb c 100) ≡ in_range 0xc6336400 0x100 (address a b c d)
  test_net_2 = ground (arith)

  test_net_3 : (eqb a 203 && eqb b 0 && eqb c 113) ≡ in_range 0xcb007100 0x100 (address a b c d)
  test_net_3 = ground (arith)

  unspecified : is_unspecified a b c d ≡ in_range 0 1 (address a b c d)
  unspecified = ground (arith)

  benchmarking :
      (eqb a 198 && eqb (bit_and b 0xfe) 18) ≡ in_range 0xc6120000 0x20000 (address a b c d)
  benchmarking = ground (arith, mask_lem b hb)

  carrier_nat :
      (eqb a 100 && (leb 64 b && ltb b 128)) ≡ in_range 0x64400000 0x400000 (address a b c d)
  carrier_nat = ground (arith)

  -- An IPv4 address is public exactly when its number lies in none of the twelve ranges 10.0.0.0/8,
  -- 172.16.0.0/12, 192.168.0.0/16, 127.0.0.0/8, 169.254.0.0/16, 255.255.255.255, 192.0.2.0/24,
  -- 198.51.100.0/24, 203.0.113.0/24, 0.0.0.0, 198.18.0.0/15 and 100.64.0.0/10. These are not all
  -- the reserved ranges: 240.0.0.0/4 but for 255.255.255.255, and 0.0.0.0/8 but for
  -- 0.0.0.0, count as public.
  pub is_public-eq-not_withheld :
      is_public (v4 a b c d) ≡ not (any (λ r. in_range r.0 r.1 (address a b c d)) withheld_ranges)
  unfolding is_public
  is_public-eq-not_withheld = simp (
    ten, private_172, private_192, loopback, link_local, broadcast, test_net_1, test_net_2,
    test_net_3, unspecified, benchmarking, carrier_nat, or_assoc, or_false,
  )

-- The IPv6 ranges that are kept back: loopback, unspecified and unique local.
abbrev pub reserved_ranges_v6 : List (ℕ × ℕ)
reserved_ranges_v6 = (1, 1) ∷ (0, 1) ∷ (0xfc * 2 ^ 120, 2 ^ 121) ∷ []

local_table :
    passes_to (λ b. same (eqb (bit_and b 0xfe) 0xfc) (eqb b 0xfc || eqb b 0xfd)) 256 ≡ true
unfolding passes_to same
local_table = refl

unique_local :
    (bits : ℕ)
    → bits < 2 ^ 128
    → eqb (bit_and (bits / 2 ^ 120) 0xfe) 0xfc ≡ in_range (0xfc * 2 ^ 120) (2 ^ 121) bits
unique_local bits h =
    same_sound _ _ (passes _ 256 (bits / 2 ^ 120) (omega arith) local_table) ∙ ground arith

-- An IPv6 address is public exactly when its number lies in none of three ranges: ::1, :: and
-- fc00::/7. The link-local range fe80::/10 is not one of them.
pub is_public-eq-not_reserved_v6 :
    (bits : ℕ)
    → bits < 2 ^ 128
    → is_public (v6 bits) ≡ not (any (λ r. in_range r.0 r.1 bits) reserved_ranges_v6)
unfolding is_public
is_public-eq-not_reserved_v6 bits h = ground (arith, unique_local bits h)

-- A link-local IPv6 address, fe80::/10, counts as public.
pub is_public_link_local : (bits : ℕ) → bits / 2 ^ 118 ≡ 1018 → is_public (v6 bits) ≡ true
unfolding is_public
is_public_link_local bits h = let top : bits / 2 ^ 120 ≡ 254 = omega arith in rw top (ground arith)
