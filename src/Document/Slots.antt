-- ===== src/Document/Slots.antt =====
-- A struct as serde writes it and reads it back: its fields in order, each a name with a value
-- unless the field is skipped.
use mathlib.Core.Path.{fun_ext}
use kwaai_net_map.Prelude.{
  String, Bool, true, false, not, ◌&&◌, Option, none, some, List, [], ◌∷◌, ◌==◌, eq_iff,
  if◌then◌else◌, ◌≡◌, refl, ap, any, arith,
}
use kwaai_net_map.Prelude.Json.{Json, Members}

abbrev pub Fields : Type 0
Fields = List (String × Option Json)

-- The members of the object: a skipped field has none.
unfoldable pub members : Fields → Members
members [] = Members.end
members ((name, none) ∷ slots) = members slots
members ((name, some v) ∷ slots) = Members.member name v (members slots)

unfoldable pub struct : Fields → Json
unfolding members
struct slots = Json.object (members slots)

-- The value under a name.
unfoldable pub get : String → Members → Option Json
get name Members.end = none
get name (Members.member k v rest) = if k == name then some v else get name rest

-- What a struct's reader makes of an object, by the values under the names.
unfoldable pub read_object {ℓ} :
    {A : Type ℓ} → ((String → Option Json) → Option A) → Json → Option A
unfolding get
read_object from (Json.object ms) = from (λ name. get name ms)
read_object from _ = none

abbrev pub slot : String → Fields → Option Json
slot name [] = none
slot name ((k, v) ∷ slots) = if k == name then v else slot name slots

abbrev pub has_slot : String → Fields → Bool
has_slot name slots = any (λ (s : String × Option Json). s.0 == name) slots

abbrev pub distinct : Fields → Bool
distinct [] = true
distinct ((name, v) ∷ slots) = not (has_slot name slots) && distinct slots

get-members_absent :
    (name : String) (slots : Fields) → has_slot name slots ≡ false → get name (members slots) ≡ none
unfolding get members
get-members_absent name [] h = refl
get-members_absent name ((k, none) ∷ slots) h = ground (arith, get-members_absent name slots)
get-members_absent name ((k, some v) ∷ slots) h = ground (arith, get-members_absent name slots)

get-members :
    (name : String) (slots : Fields)
    → distinct slots ≡ true
    → get name (members slots) ≡ slot name slots
unfolding get members
get-members name [] d = refl
get-members name ((k, none) ∷ slots) d =
    ground (arith, get-members name slots, get-members_absent name slots, eq_iff k name)
get-members name ((k, some v) ∷ slots) d = ground (arith, get-members name slots)

-- Under names that differ, a reader finds the value of each field that was written.
pub read_object-struct {ℓ} :
    {A : Type ℓ} (from : (String → Option Json) → Option A) (slots : Fields)
    → distinct slots ≡ true
    → read_object from (struct slots) ≡ from (λ name. slot name slots)
unfolding read_object struct
read_object-struct from slots d = ap from (fun_ext (λ name. get-members name slots d))
