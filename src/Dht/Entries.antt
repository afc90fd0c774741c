-- ===== src/Dht/Entries.antt =====
-- The subkeys of a dictionary value.
use kwaai_net_map.Prelude.{
  String, false, not, Option, none, some, List, [], ◌∷◌, ◌≡◌, ◌==◌, if◌then◌else◌, get_elem?,
  unwrap_or, filter_map, All, arith, Option-cases, Bool-cases, inl, inr,
}
use kwaai_net_map.Prelude.Int.{pos}
use kwaai_net_map.Snapshot.{ServerInfo}
use kwaai_net_map.Dht.{
  ModelRegistration, subkey_to_string, binary_of, dictionary_entry, entries_of, dictionary_entries,
  registration, decode_model_registry, decode_entry, decode_server_info, servers_in,
}
use kwaai_net_map.Dht.Wire.{Bytes, Value, Msgpack, as_array, as_map}

-- What the function gives for elements that pass holds of all that it gives for a list of them.
All-filter_map {ℓ κ μ ν} :
    {A : Type ℓ} {B : Type κ} (Q : A → Type ν) (P : B → Type μ) (f : A → Option B)
    → ((a : A) (b : B) → Q a → f a ≡ some b → P b)
    → (l : List A) → All Q l
    → All P (filter_map f l)
All-filter_map Q P f h [] k = tt
All-filter_map Q P f h (a ∷ l) k = elim (Option-cases (f a)) [
  | inl dropped ↦ rw (dropped, All) (All-filter_map Q P f h l k.1)
  | inr (b, kept) ↦ rw (kept, All) (h a b k.0 kept, All-filter_map Q P f h l k.1)
]

All-any {ℓ} : {A : Type ℓ} (l : List A) → All {ℓ, 0} (λ a. Unit) l
All-any [] = tt
All-any (a ∷ l) = (tt, All-any l)

abbrev IsNamed : String × Bytes → Type 0
IsNamed e = (e.0 == "") ≡ false

module _ (m : Msgpack) where
  keep_named :
      (subkey : String) (value : Bytes) (e : String × Bytes)
      → (if not (subkey == "") then some (subkey, value) else none) ≡ some e
      → (e.0 == "") ≡ false
  keep_named subkey value e h = elim (Bool-cases (subkey == "")) [
    | inl empty ↦ absurd (ground arith)
    | inr filled ↦ ground arith
  ]

  dictionary_entry_named :
      (entry : Value) (e : String × Bytes) → dictionary_entry m entry ≡ some e → (e.0 == "") ≡ false
  unfolding dictionary_entry
  dictionary_entry_named entry e h = elim (Option-cases (as_array entry)) [
    | inl other ↦ absurd (ground arith)
    | inr (l, is_array) ↦ elim (Option-cases (get_elem? l 0)) [
      | inl short ↦ absurd (ground arith)
      | inr (first, has_first) ↦ elim (Option-cases (subkey_to_string m first)) [
        | inl unreadable ↦ absurd (ground arith)
        | inr (subkey, read) ↦ elim (Option-cases (get_elem? l 1)) [
          | inl short ↦ absurd (ground arith)
          | inr (second, has_second) ↦ elim (Option-cases (binary_of m second)) [
            | inl opaque ↦ absurd (ground arith)
            | inr (value, is_binary) ↦ keep_named subkey value e (ground arith)
          ]
        ]
      ]
    ]
  ]

  dictionary_entries-IsNamed : (bytes : Bytes) → All IsNamed (dictionary_entries m bytes)
  unfolding dictionary_entries
  dictionary_entries-IsNamed bytes =
      let entries = unwrap_or (entries_of m bytes) [] in
      All-filter_map (λ v. Unit) IsNamed (dictionary_entry m)
        (λ entry e any h. dictionary_entry_named entry e h) entries (All-any entries)

  server_named :
      (e : String × Bytes) (s : String × ServerInfo)
      → IsNamed e
      → decode_entry m e ≡ some s
      → (s.0 == "") ≡ false
  server_named e s named h = elim (Option-cases (decode_server_info m e.1)) [
    | inl other ↦ absurd (ground arith)
    | inr (info, decoded) ↦ ground arith
  ]

  registration_named :
      (e : String × Bytes) (reg : ModelRegistration)
      → IsNamed e
      → registration m e ≡ some reg
      → (reg.dht_prefix == "") ≡ false
  unfolding registration
  registration_named e reg named h = elim (Option-cases (m.read_value e.1)) [
    | inl unreadable ↦ absurd (ground arith)
    | inr (v, read) ↦ elim (Option-cases (as_map v)) [
      | inl other ↦ absurd (ground arith)
      | inr (fields, is_map) ↦ ground arith
    ]
  ]

  -- Whatever the bytes are, no server read from a dictionary has the empty peer id, and no model of
  -- a registry the empty prefix.
  pub dictionary_named :
      (bytes : Bytes)
      → All (λ s. (s.0 == "") ≡ false) (servers_in m (pos 2) bytes)
        × All (λ reg. (reg.dht_prefix == "") ≡ false) (decode_model_registry m bytes)
  unfolding servers_in decode_model_registry
  dictionary_named bytes =
      let named = dictionary_entries-IsNamed bytes in
      (
        All-filter_map IsNamed (λ s. (s.0 == "") ≡ false) (decode_entry m) server_named
            (dictionary_entries m bytes) named,
        All-filter_map IsNamed (λ reg. (reg.dht_prefix == "") ≡ false) (registration m)
            registration_named (dictionary_entries m bytes) named,
      )
