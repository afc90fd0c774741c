-- ===== src/Crawl/Registry.antt =====
-- The models that the registry lists: `discover_models` of map-server/src/crawler.rs.
use kwaai_net_map.Prelude.{
  String, true, not, List, [], ◌∷◌, ◌≡◌, refl, ◌==◌, is_empty, All, arith, Assoc, keys, eq_iff,
  Bool-cases, inl, inr,
}
use kwaai_net_map.Prelude.Sorting.{before, IsSorted}
use kwaai_net_map.Prelude.Order.{before_total, All-before}
use kwaai_net_map.Bootstrap.{BootstrapSet, live}
use kwaai_net_map.Assemble.{Model}
use kwaai_net_map.Dht.{ModelRegistration, decode_model_registry}
use kwaai_net_map.Dht.Wire.{Msgpack}
use kwaai_net_map.Crawl.{
  id_of, FindResult, Network, clamp_blocks, or_insert_sorted, register, register_results, ask_each,
}
use kwaai_net_map.Crawl.Answers.{ask_each_inv}

-- The model of a registration.
abbrev pub clamped : ModelRegistration → Model
clamped reg = record {
  dht_prefix = reg.dht_prefix;
  repository = reg.repository;
  num_blocks = clamp_blocks reg.num_blocks;
}

pub All-or_insert_sorted {κ} :
    (P : String × Model → Type κ) (k : String) (v : Model) (m : Assoc Model)
    → P (k, v)
    → All P m
    → All P (or_insert_sorted k v m)
unfolding or_insert_sorted
All-or_insert_sorted P k v [] p h = (p, tt)
All-or_insert_sorted P k v ((j, w) ∷ m) p h = elim (Bool-cases (j == k)) [
  | inl same ↦ rw same h
  | inr other ↦ elim (Bool-cases (before k j)) [
    | inl first ↦ rw (other, first) (p, h)
    | inr later ↦ rw (other, later) (h.0, All-or_insert_sorted P k v m p h.1)
  ]
]

module _ {κ} (P : Assoc Model → Type κ)
    (keep : (reg : ModelRegistration) (found : Assoc Model)
      → P found
      → P (or_insert_sorted reg.dht_prefix (clamped reg) found)) where
  register_inv :
      (regs : List ModelRegistration) (found : Assoc Model) → P found → P (register regs found)
  unfolding register
  register_inv [] found h = h
  register_inv (reg ∷ regs) found h = register_inv regs _ (keep reg found h)

  register_results_inv :
      (m : Msgpack) (results : List FindResult) (found : Assoc Model)
      → P found
      → P (register_results m results found)
  unfolding register_results
  register_results_inv m [] found h = h
  register_results_inv m (r ∷ results) found h = elim (Bool-cases (is_empty r.value)) [
    | inl nothing ↦ rw nothing (register_results_inv m results found h)
    | inr filled ↦
        rw filled (
          register_results_inv m results _ (register_inv (decode_model_registry m r.value) found h))
  ]

module _ {World PeerId : Type 0} (net : Network World PeerId) (m : Msgpack) (set : BootstrapSet)
    (w : World) where
  -- The map that `discover_models` fills.
  abbrev pub registered : Assoc Model
  registered =
      (ask_each net (id_of net "_petals.models" ∷ []) (register_results m) (λ f. not (is_empty f))
        (live set) [] set w).0

  -- What holds of the empty map and is kept by each registration holds of the registered models.
  pub registered_inv {κ} :
      (P : Assoc Model → Type κ)
      → P []
      → ((reg : ModelRegistration) (found : Assoc Model)
          → P found
          → P (or_insert_sorted reg.dht_prefix (clamped reg) found))
      → P registered
  registered_inv P p keep =
      ask_each_inv net (id_of net "_petals.models" ∷ []) (register_results m)
        (λ f. not (is_empty f)) P
        (λ results found decoded h. register_results_inv P keep m results found h) (live set) [] set
        w p

-- The keys ascend, and each is its model's prefix.
abbrev pub IsRegistry : Assoc Model → Type 0
IsRegistry found =
    IsSorted before (keys found) × All (λ (e : String × Model). e.1.dht_prefix ≡ e.0) found

All-keys :
    (k : String) (m : Assoc Model)
    → All (λ (e : String × Model). before k e.0 ≡ true) m
    → All (λ j. before k j ≡ true) (keys m)
All-keys k [] h = tt
All-keys k (e ∷ m) h = (h.0, All-keys k m h.1)

keys-All :
    (k : String) (m : Assoc Model)
    → All (λ j. before k j ≡ true) (keys m)
    → All (λ (e : String × Model). before k e.0 ≡ true) m
keys-All k [] h = tt
keys-All k (e ∷ m) h = (h.0, keys-All k m h.1)

or_insert_sorted-IsSorted :
    (k : String) (v : Model) (m : Assoc Model)
    → IsSorted before (keys m)
    → IsSorted before (keys (or_insert_sorted k v m))
unfolding or_insert_sorted
or_insert_sorted-IsSorted k v [] h = (tt, tt)
or_insert_sorted-IsSorted k v ((j, w) ∷ m) h = elim (Bool-cases (j == k)) [
  | inl same ↦ rw same h
  | inr other ↦ elim (Bool-cases (before k j)) [
    | inl first ↦ rw (other, first) ((first, All-before k j (keys m) first h.0), h)
    | inr later ↦
        let ahead : before j k ≡ true =
          before_total k j (ground (arith, eq_iff k j, eq_iff j k)) later in
        rw (other, later)
          (
            All-keys j (or_insert_sorted k v m)
                (All-or_insert_sorted (λ e. before j e.0 ≡ true) k v m ahead (keys-All j m h.0)),
            or_insert_sorted-IsSorted k v m h.1,
          )
  ]
]

pub registered-IsRegistry :
    {World PeerId : Type 0} (net : Network World PeerId) (m : Msgpack) (set : BootstrapSet)
    (w : World)
    → IsRegistry (registered net m set w)
registered-IsRegistry net m set w =
    registered_inv net m set w IsRegistry (tt, tt)
      (λ reg found h. (
        or_insert_sorted-IsSorted reg.dht_prefix (clamped reg) found h.0,
        All-or_insert_sorted (λ e. e.1.dht_prefix ≡ e.0) reg.dht_prefix (clamped reg) found refl
            h.1,
      ))
