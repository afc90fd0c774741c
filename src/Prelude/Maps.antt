-- ===== src/Prelude/Maps.antt =====
-- Maps with text keys as association lists: `HashMap<String, V>` in some iteration order.
use Prim.Native.String.{String}
use mathlib.Core.Path.{◌≡◌, refl}
use mathlib.Core.List.{List, [], ◌∷◌, map}
use mathlib.Core.Option.{Option, none, some}
use native.Mathlib.Omega.{arith}
use text.Mathlib.Text.{◌==◌}
use text.Mathlib.TextEquality.{eq_iff}
use kwaai_net_map.Prelude.Tests.{if◌then◌else◌, or_else}

abbrev pub Assoc {ℓ} : Type ℓ → Type ℓ
Assoc V = List (String × V)

pub eq_sym : (s t : String) → (s == t) ≡ (t == s)
eq_sym s t = ground (arith, eq_iff s t, eq_iff t s)

module _ {ℓ} {V : Type ℓ} where
  abbrev pub keys : Assoc V → List String
  keys m = map (λ e. e.0) m

  abbrev pub values : Assoc V → List V
  values m = map (λ e. e.1) m

  -- `get`
  unfoldable pub lookup : String → Assoc V → Option V
  lookup name [] = none
  lookup name (entry ∷ rest) = if entry.0 == name then some entry.1 else lookup name rest

  -- `insert`: the value of an old key is replaced.
  unfoldable pub insert : String → V → Assoc V → Assoc V
  insert name value [] = (name, value) ∷ []
  insert name value (entry ∷ rest) =
      if entry.0 == name then (name, value) ∷ rest else entry ∷ insert name value rest

  -- `entry(k).or_insert(v)`: the value of an old key is kept.
  unfoldable pub or_insert : String → V → Assoc V → Assoc V
  or_insert k v [] = (k, v) ∷ []
  or_insert k v ((j, w) ∷ m) = if j == k then (j, w) ∷ m else (j, w) ∷ or_insert k v m

  pub lookup-insert :
      (name asked : String) (value : V) (table : Assoc V)
      → lookup asked (insert name value table)
        ≡ (if name == asked then some value else lookup asked table)
  unfolding insert lookup
  lookup-insert name asked value [] = refl
  lookup-insert name asked value (entry ∷ rest) = ground (
    arith,
    lookup-insert name asked value rest,
    eq_iff entry.0 asked,
    eq_iff entry.0 name,
    eq_iff name asked,
  )

  pub lookup-or_insert :
      (k j : String) (v : V) (m : Assoc V)
      → lookup j (or_insert k v m) ≡ (if k == j then or_else (lookup j m) (some v) else lookup j m)
  unfolding lookup or_insert
  lookup-or_insert k j v [] = ground arith
  lookup-or_insert k j v ((i, w) ∷ m) =
      ground (arith, eq_iff k j, eq_iff i k, eq_iff i j, lookup-or_insert k j v m)
