-- ===== src/Prelude/Shuffle.antt =====
-- The entries of a hash map in another order, and what does not depend on it.
use Prim.Native.String.{String}
use mathlib.Core.Path.{◌≡◌, refl, ◌∙◌, ap}
use mathlib.Core.Bool.{Bool, false}
use mathlib.Core.List.{[], ◌∷◌, map}
use mathlib.Core.Option.{Option, some}
use native.Mathlib.Omega.{arith}
use text.Mathlib.Text.{◌==◌}
use text.Mathlib.TextEquality.{eq_iff}
use kwaai_net_map.Prelude.Tests.{if◌then◌else◌, is_some}
use kwaai_net_map.Prelude.Lists.{select}
use kwaai_net_map.Prelude.Maps.{Assoc, keys, lookup}
use kwaai_net_map.Prelude.Sorting.{member}

-- No two entries that change places have the same key.
pub data Shuffle {ℓ} {V : Type ℓ} : Assoc V → Assoc V → Type ℓ where
  same : {l : Assoc V} → Shuffle l l
  keep : {p : String × V} {l m : Assoc V} → Shuffle l m → Shuffle (p ∷ l) (p ∷ m)
  swap : {p q : String × V} {l : Assoc V} → (p.0 == q.0) ≡ false → Shuffle (p ∷ q ∷ l) (q ∷ p ∷ l)
  next : {l m n : Assoc V} → Shuffle l m → Shuffle m n → Shuffle l n

module _ {ℓ} {V : Type ℓ} where
  -- The same value, or none, under every key.
  abbrev pub SameMap : Assoc V → Assoc V → Type ℓ
  SameMap l m = (k : String) → lookup k l ≡ lookup k m

  pub lookup-Shuffle : (l m : Assoc V) → Shuffle l m → SameMap l m
  unfolding lookup
  lookup-Shuffle l m same k = refl
  lookup-Shuffle l m (keep {p} {l = l'} {m = m'} s) k =
      ap (λ (o : Option V). if p.0 == k then some p.1 else o) (lookup-Shuffle l' m' s k)
  lookup-Shuffle l m (swap {p} {q} {l = l'} ne) k =
      ground (arith, eq_iff p.0 k, eq_iff q.0 k, eq_iff p.0 q.0)
  lookup-Shuffle l m (next {m = n} s s') k = lookup-Shuffle l n s k ∙ lookup-Shuffle n m s' k

  -- The keys of the entries that pass a test.
  pub member-Shuffle :
      (p : String × V → Bool) (k : String) (l m : Assoc V)
      → Shuffle l m
      → member k (keys (select p l)) ≡ member k (keys (select p m))
  member-Shuffle p k l m same = refl
  member-Shuffle p k l m (keep {p = e} {l = l'} {m = m'} s) =
      ground (arith, member-Shuffle p k l' m' s)
  member-Shuffle p k l m (swap {p = e} {q = f} {l = l'} ne) = ground arith
  member-Shuffle p k l m (next {m = n} s s') = member-Shuffle p k l n s ∙ member-Shuffle p k n m s'

  pub member-keys : (k : String) (l : Assoc V) → member k (keys l) ≡ is_some (lookup k l)
  unfolding lookup
  member-keys k [] = refl
  member-keys k (e ∷ l) = ground (arith, member-keys k l)

pub map-Shuffle {ℓ κ} :
    {V : Type ℓ} {W : Type κ} (f : V → W) (l m : Assoc V)
    → Shuffle l m
    → Shuffle (map (λ (e : String × V). (e.0, f e.1)) l) (map (λ (e : String × V). (e.0, f e.1)) m)
map-Shuffle f l m same = same
map-Shuffle f l m (keep {l = l'} {m = m'} s) = keep (map-Shuffle f l' m' s)
map-Shuffle f l m (swap ne) = swap ne
map-Shuffle f l m (next {m = n} s s') = next (map-Shuffle f l n s) (map-Shuffle f n m s')
