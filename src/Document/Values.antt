-- ===== src/Document/Values.antt =====
-- The JSON of text, numbers, options and lists as serde writes it, and what its readers accept.
use kwaai_net_map.Prelude.{
  ℕ, String, Bool, true, false, ◌&&◌, Option, none, some, List, [], ◌∷◌, map, ltb, if◌then◌else◌,
  ◌>>=◌, map_option, ◌≡◌, refl, arith, Assoc,
}
use kwaai_net_map.Prelude.Int.{ℤ, pos, negsuc}
use kwaai_net_map.Prelude.F64.{F64, magnitude}
use kwaai_net_map.Prelude.Json.{Json, Items, Members}

abbrev pub finite : F64 → Bool
finite x = ltb (magnitude x) 9218868437227405312

abbrev pub is_i64 : ℤ → Bool
is_i64 (pos n) = ltb n 9223372036854775808
is_i64 (negsuc n) = ltb n 9223372036854775808

-- `serde_json` has no infinities and no NaN: it writes `null`.
unfoldable pub write_f64 : F64 → Json
write_f64 x = if finite x then Json.float x else Json.null

abbrev pub write_unsigned : ℕ → Json
write_unsigned n = Json.integer (pos n)

unfoldable pub read_text : Json → Option String
read_text (Json.string s) = some s
read_text _ = none

unfoldable pub read_bool : Json → Option Bool
read_bool (Json.bool b) = some b
read_bool _ = none

unfoldable pub read_i64 : Json → Option ℤ
read_i64 (Json.integer z) = if is_i64 z then some z else none
read_i64 _ = none

-- An unsigned number below the bound of its type.
unfoldable pub read_unsigned : ℕ → Json → Option ℕ
read_unsigned bound (Json.integer (pos n)) = if ltb n bound then some n else none
read_unsigned bound _ = none

-- `of_int` is the nearest float, which is what an integer is read as.
unfoldable pub read_f64 : (of_int : ℤ → F64) → Json → Option F64
read_f64 of_int (Json.float x) = some x
read_f64 of_int (Json.integer z) = some (of_int z)
read_f64 of_int _ = none

module _ {ℓ} {A : Type ℓ} where
  -- An option that is not skipped: `null` for none.
  abbrev pub write_option : (A → Json) → Option A → Json
  write_option write none = Json.null
  write_option write (some a) = write a

  abbrev pub write_items : (A → Json) → List A → Items
  write_items write [] = Items.nil
  write_items write (a ∷ l) = Items.cons (write a) (write_items write l)

  unfoldable pub write_list : (A → Json) → List A → Json
  write_list write l = Json.array (write_items write l)

  -- A field that must be there, one with `serde(default)`, and an option: none if it is missing or
  -- `null`.
  abbrev pub required : (Json → Option A) → Option Json → Option A
  required read none = none
  required read (some v) = read v

  abbrev pub defaulted : (Json → Option A) → A → Option Json → Option A
  defaulted read d none = some d
  defaulted read d (some v) = read v

  unfoldable pub read_option : (Json → Option A) → Json → Option (Option A)
  read_option read Json.null = some none
  read_option read v = map_option some (read v)

  unfoldable pub optional : (Json → Option A) → Option Json → Option (Option A)
  unfolding read_option
  optional read none = some none
  optional read (some v) = read_option read v

  abbrev pub read_items : (Json → Option A) → Items → Option (List A)
  read_items read Items.nil = some []
  read_items read (Items.cons v l) = do a ← read v; rest ← read_items read l; some (a ∷ rest)

  unfoldable pub read_list : (Json → Option A) → Json → Option (List A)
  read_list read (Json.array l) = read_items read l
  read_list read _ = none

  -- A map with text keys.
  abbrev pub read_entries : (Json → Option A) → Members → Option (Assoc A)
  read_entries read Members.end = some []
  read_entries read (Members.member name v ms) = do
    a ← read v
    rest ← read_entries read ms
    some ((name, a) ∷ rest)

  abbrev pub every : (A → Bool) → List A → Bool
  every p [] = true
  every p (a ∷ l) = p a && every p l

  abbrev pub every_some : (A → Bool) → Option A → Bool
  every_some p none = true
  every_some p (some a) = p a

  abbrev pub when : Bool → A → Option A
  when b a = if b then some a else none

  -- The value, if there is one and the test holds.
  abbrev pub kept : (A → Bool) → Option A → Option A
  kept p none = none
  kept p (some a) = when (p a) a

-- Written and read, a value comes back as `seen` of it if it is `ok`, and is refused otherwise.
abbrev pub ReadsBack {ℓ} :
    {A : Type ℓ} → (A → Json) → (Json → Option A) → (A → Bool) → (A → A) → Type ℓ
ReadsBack {A = A} write read ok seen = (a : A) → read (write a) ≡ when (ok a) (seen a)

pub read_list-write_list {ℓ} :
    {A : Type ℓ} (write : A → Json) (read : Json → Option A) (ok : A → Bool) (seen : A → A)
    → ReadsBack write read ok seen
    → (l : List A) → read_list read (write_list write l) ≡ when (every ok l) (map seen l)
unfolding read_list write_list
read_list-write_list write read ok seen back [] = refl
read_list-write_list write read ok seen back (a ∷ l) =
    rw (back a, read_list-write_list write read ok seen back l) (ground arith)

pub every_always {ℓ} : {A : Type ℓ} (l : List A) → every (λ a. true) l ≡ true
every_always [] = refl
every_always (a ∷ l) = every_always l

pub optional-text : (o : Option String) → optional read_text (map_option Json.string o) ≡ some o
unfolding optional read_text
optional-text none = refl
optional-text (some s) = refl

pub optional-bool : (o : Option Bool) → optional read_bool (map_option Json.bool o) ≡ some o
unfolding optional read_bool
optional-bool none = refl
optional-bool (some b) = refl

pub optional-i64 :
    (o : Option ℤ) → optional read_i64 (map_option Json.integer o) ≡ when (every_some is_i64 o) o
unfolding optional read_i64
optional-i64 none = refl
optional-i64 (some z) = ground arith

-- A float that is no number is written as `null`, and read as none.
pub optional-f64 :
    (of_int : ℤ → F64) (o : Option F64)
    → optional (read_f64 of_int) (map_option write_f64 o) ≡ some (kept finite o)
unfolding optional read_f64 write_f64
optional-f64 of_int none = refl
optional-f64 of_int (some x) = ground arith

pub read_f64-write_f64 :
    (of_int : ℤ → F64) (x : F64) → read_f64 of_int (write_f64 x) ≡ when (finite x) x
unfolding read_f64 write_f64
read_f64-write_f64 of_int x = ground arith

-- Options that are not skipped.
pub optional-text_or_null :
    (o : Option String) → optional read_text (some (write_option Json.string o)) ≡ some o
unfolding optional read_text
optional-text_or_null none = refl
optional-text_or_null (some s) = refl

pub optional-bool_or_null :
    (o : Option Bool) → optional read_bool (some (write_option Json.bool o)) ≡ some o
unfolding optional read_bool
optional-bool_or_null none = refl
optional-bool_or_null (some b) = refl

abbrev pub not_null : Json → Bool
not_null Json.null = false
not_null _ = true

-- A value of any kind: `null` is read as none.
pub optional-value : (o : Option Json) → optional some o ≡ some (kept not_null o)
unfolding optional
optional-value none = refl
optional-value (some Json.null) = refl
optional-value (some (Json.bool b)) = refl
optional-value (some (Json.integer z)) = refl
optional-value (some (Json.float x)) = refl
optional-value (some (Json.string s)) = refl
optional-value (some (Json.array l)) = refl
optional-value (some (Json.object ms)) = refl

pub optional-value_or_null :
    (o : Option Json) → optional some (some (write_option (λ v. v) o)) ≡ some (kept not_null o)
unfolding optional
optional-value_or_null none = refl
optional-value_or_null (some v) = optional-value (some v)
