-- ===== src/Prelude/Sets.antt =====
-- `BTreeSet<i64>` over block numbers, as strictly ascending lists.
use Prim.Native.Nat.{ℕ, suc, ◌-◌, ◌≤◌, ◌<◌}
use mathlib.Core.Path.{◌≡◌, refl, ◌∙◌}
use mathlib.Core.Bool.{Bool, true, false, ◌||◌}
use mathlib.Core.List.{List, [], ◌∷◌}
use mathlib.Core.Logic.{inl, inr}
use native.Mathlib.Omega.{arith}
use kwaai_net_map.Prelude.Tests.{ltb, eqb, if◌then◌else◌, Bool-cases}
use kwaai_net_map.Prelude.Lists.{length, All, any}

abbrev pub elem : ℕ → List ℕ → Bool
elem b l = any (eqb b) l

unfoldable pub insert_nat : ℕ → List ℕ → List ℕ
insert_nat b [] = b ∷ []
insert_nat b (x ∷ l) = if ltb b x then b ∷ x ∷ l else if eqb b x then x ∷ l else x ∷ insert_nat b l

-- `covered.extend(blocks)`
unfoldable pub extend_nat : List ℕ → List ℕ → List ℕ
unfolding insert_nat
extend_nat l [] = l
extend_nat l (b ∷ blocks) = extend_nat (insert_nat b l) blocks

-- Strictly ascending, from the bound on.
abbrev pub IsAscending : ℕ → List ℕ → Type 0
IsAscending lo [] = Unit
IsAscending lo (x ∷ l) = (lo ≤ x) × IsAscending (suc x) l

pub insert_nat-IsAscending :
    (lo b : ℕ) (l : List ℕ) → lo ≤ b → IsAscending lo l → IsAscending lo (insert_nat b l)
unfolding insert_nat
insert_nat-IsAscending lo b [] h a = (h, tt)
insert_nat-IsAscending lo b (x ∷ l) h a = ground (arith, insert_nat-IsAscending (suc x) b l)

pub elem-insert_nat : (c b : ℕ) (l : List ℕ) → elem c (insert_nat b l) ≡ (eqb c b || elem c l)
unfolding insert_nat
elem-insert_nat c b [] = refl
elem-insert_nat c b (x ∷ l) = ground (arith, elem-insert_nat c b l)

pub extend_nat-IsAscending :
    (l blocks : List ℕ) → IsAscending 0 l → IsAscending 0 (extend_nat l blocks)
unfolding extend_nat
extend_nat-IsAscending l [] a = a
extend_nat-IsAscending l (b ∷ blocks) a =
    extend_nat-IsAscending (insert_nat b l) blocks (insert_nat-IsAscending 0 b l (omega arith) a)

or_swap : (x y z : Bool) → (y || (x || z)) ≡ ((x || y) || z)
or_swap x y z = ground arith

pub elem-extend_nat :
    (c : ℕ) (l blocks : List ℕ) → elem c (extend_nat l blocks) ≡ (elem c blocks || elem c l)
unfolding extend_nat
elem-extend_nat c l [] = refl
elem-extend_nat c l (b ∷ blocks) =
    elem-extend_nat c (insert_nat b l) blocks ∙ ground (arith, elem-insert_nat c b l)

pub All-insert_nat :
    (n b : ℕ) (l : List ℕ) → b < n → All (λ x. x < n) l → All (λ x. x < n) (insert_nat b l)
unfolding insert_nat
All-insert_nat n b [] h a = (h, tt)
All-insert_nat n b (x ∷ l) h a = ground (arith, All-insert_nat n b l)

pub All-extend_nat :
    (n : ℕ) (l blocks : List ℕ)
    → All (λ x. x < n) l
    → All (λ x. x < n) blocks
    → All (λ x. x < n) (extend_nat l blocks)
unfolding extend_nat
All-extend_nat n l [] a h = a
All-extend_nat n l (b ∷ blocks) a h =
    All-extend_nat n (insert_nat b l) blocks (All-insert_nat n b l h.0 a) h.1

-- An ascending list of numbers from `lo` to below `n` has at most `n - lo` entries.
pub length-le-range :
    (lo n : ℕ) (l : List ℕ) → IsAscending lo l → All (λ x. x < n) l → length l ≤ n - lo
length-le-range lo n [] a h = omega arith
length-le-range lo n (x ∷ l) a h = omega (arith, length-le-range (suc x) n l a.1 h.1)

-- A full one holds every number of the range.
pub elem_of_full :
    (lo n : ℕ) (l : List ℕ)
    → IsAscending lo l
    → All (λ x. x < n) l
    → length l ≡ n - lo
    → (b : ℕ) → lo ≤ b
    → b < n
    → elem b l ≡ true
elem_of_full lo n [] a h full b p q = absurd (omega arith)
elem_of_full lo n (x ∷ l) a h full b p q =
    let bound = length-le-range (suc x) n l a.1 h.1 in
    let rest = elem_of_full (suc x) n l a.1 h.1 (omega arith) b in ground (arith, bound, rest)

not-elem-below : (lo b : ℕ) (l : List ℕ) → IsAscending lo l → b < lo → elem b l ≡ false
not-elem-below lo b [] a h = refl
not-elem-below lo b (x ∷ l) a h = ground (arith, not-elem-below (suc x) b l a.1)

-- And one that holds every number of the range is full.
pub full_of_elem :
    (lo n : ℕ) (l : List ℕ)
    → IsAscending lo l
    → All (λ x. x < n) l
    → ((b : ℕ) → lo ≤ b → b < n → elem b l ≡ true)
    → length l ≡ n - lo
full_of_elem lo n [] a h every = elim (Bool-cases (ltb lo n)) [
  | inl room ↦ absurd (ground (arith, every lo))
  | inr none_left ↦ ground arith
]
full_of_elem lo n (x ∷ l) a h every =
    let first : x ≡ lo = ground (arith, every lo, not-elem-below (suc x) lo l a.1) in
    let rest = full_of_elem (suc x) n l a.1 h.1 (λ b p q. ground (arith, every b)) in
    omega (arith, rest, first)
