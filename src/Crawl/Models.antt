-- ===== src/Crawl/Models.antt =====
-- The models that a crawl goes through.
use kwaai_net_map.Prelude.{
  ◌≤◌, String, List, [], ◌∷◌, ◌≡◌, ◌≢◌, if◌then◌else◌, is_empty, All, arith, Assoc, values,
}
use kwaai_net_map.Prelude.Int.{ℤ, pos_part, neg_part}
use kwaai_net_map.Bootstrap.{BootstrapSet}
use kwaai_net_map.Assemble.{Model}
use kwaai_net_map.Dht.Wire.{Msgpack}
use kwaai_net_map.Crawl.{Network, clamp_blocks, fallback_models, discover_models}
use kwaai_net_map.Crawl.Registry.{
  clamped, All-or_insert_sorted, registered, registered_inv, IsRegistry, registered-IsRegistry,
}
use kwaai_net_map.Prelude.{ℕ, false, some, lookup, unwrap_or, map_option, refl}
use kwaai_net_map.Prelude.Order.{All-lookup}

-- A block count for which `FindRequest`s stay small.
abbrev pub HasFewBlocks : Model → Type 0
HasFewBlocks m =
    (1 ≤ pos_part m.num_blocks) × (pos_part m.num_blocks ≤ 512) × (neg_part m.num_blocks ≡ 0)

clamp_blocks_bounds :
    (n : ℤ)
    → (1 ≤ pos_part (clamp_blocks n))
      × (pos_part (clamp_blocks n) ≤ 512)
      × (neg_part (clamp_blocks n) ≡ 0)
unfolding clamp_blocks
clamp_blocks_bounds n = ground arith

abbrev AllFew : Assoc Model → Type 0
AllFew found = All (λ e. HasFewBlocks e.1) found

values-AllFew : (found : Assoc Model) → AllFew found → All HasFewBlocks (values found)
values-AllFew [] h = tt
values-AllFew (e ∷ found) h = (h.0, values-AllFew found h.1)

abbrev chosen : Assoc Model → List Model
chosen found = if is_empty found then fallback_models else values found

chosen_lem :
    (found : Assoc Model) → AllFew found → (chosen found ≢ []) × All HasFewBlocks (chosen found)
chosen_lem [] h = (λ e. cc, omega arith)
chosen_lem (e ∷ found) h = (λ e'. cc, values-AllFew (e ∷ found) h)

-- Whatever the bootstraps answer, or do not, there is a model to crawl, and the block count of each
-- lies between 1 and 512.
pub discover_models_lem :
    {World PeerId : Type 0} (net : Network World PeerId) (m : Msgpack) (set : BootstrapSet)
    (w : World)
    → ((discover_models net m set w).0 ≢ []) × All HasFewBlocks (discover_models net m set w).0
unfolding discover_models
discover_models_lem net m set w = chosen_lem (registered net m set w) (
    registered_inv net m set w AllFew tt (λ reg found h.
      All-or_insert_sorted (λ e. HasFewBlocks e.1) reg.dht_prefix (clamped reg) found
        (clamp_blocks_bounds reg.num_blocks) h))

-- The number of blocks that the registry gives for a prefix.
abbrev blocks_of : Assoc Model → String → ℕ
blocks_of found prefix =
    if is_empty found
    then 80
    else unwrap_or (map_option (λ (m : Model). pos_part m.num_blocks) (lookup prefix found)) 0

abbrev pub HasBound : (String → ℕ) → Model → Type 0
HasBound bound m = pos_part m.num_blocks ≡ bound m.dht_prefix

HasBound-values :
    (all found : Assoc Model)
    → is_empty all ≡ false
    → All (λ (e : String × Model). lookup e.0 all ≡ some e.1) found
    → All (λ (e : String × Model). e.1.dht_prefix ≡ e.0) found
    → All (HasBound (blocks_of all)) (values found)
HasBound-values all [] h a n = tt
HasBound-values all ((k, m) ∷ found) h a n =
    (ground (arith, a.0, n.0), HasBound-values all found h a.1 n.1)

HasBound-chosen :
    (found : Assoc Model) → IsRegistry found → All (HasBound (blocks_of found)) (chosen found)
HasBound-chosen [] h = (refl, (refl, (refl, (refl, tt))))
HasBound-chosen (e ∷ found) h =
    HasBound-values (e ∷ found) (e ∷ found) refl (All-lookup (e ∷ found) h.0) h.1

-- Models with the same prefix have the same number of blocks.
pub discover_models-HasBound :
    {World PeerId : Type 0} (net : Network World PeerId) (m : Msgpack) (set : BootstrapSet)
    (w : World)
    → (bound : String → ℕ) × All (HasBound bound) (discover_models net m set w).0
unfolding discover_models
discover_models-HasBound net m set w = (
  blocks_of (registered net m set w),
  HasBound-chosen (registered net m set w) (registered-IsRegistry net m set w),
)
