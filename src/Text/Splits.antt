-- ===== src/Text/Splits.antt =====
-- Where a text splits around a pattern that begins with a slash.
use Prim.Native.Char.{Char, code}
use Prim.Native.String.{[], ◌∷◌}
use text.Mathlib.TextLemmas.{nil-append, cons-append}
use kwaai_net_map.Prelude.{
  String, Bool, true, false, some, none, ◌≡◌, refl, ap, sym, ◌∙◌, eqb, arith, Option-cases, inl,
  inr,
}
use kwaai_net_map.Text.{append, strip_prefix, starts_with, contains, split_once, rsplit_once}
use kwaai_net_map.Text.Pieces.{lacks, strip_prefix-append}

abbrev pub is_slash : Char → Bool
is_slash c = eqb (code c) b'/'

-- A text without a slash does not begin with a pattern that has one.
strip_prefix-lacks :
    (q s : String) → lacks is_slash q ≡ false → lacks is_slash s ≡ true → strip_prefix q s ≡ none
unfolding strip_prefix
strip_prefix-lacks [] s h k = cc
strip_prefix-lacks (c ∷ q) [] h k = refl
strip_prefix-lacks (c ∷ q) (d ∷ s) h k = ground (arith, strip_prefix-lacks q s)

-- A prefix without a slash that is not in front of the text is not in front of the text and a slash.
strip_prefix-slash :
    (q s : String) (d : Char) (rest : String)
    → lacks is_slash q ≡ true
    → is_slash d ≡ true
    → strip_prefix q s ≡ none
    → strip_prefix q (append s (d ∷ rest)) ≡ none
unfolding strip_prefix
strip_prefix-slash [] s d rest h at_d k = cc
strip_prefix-slash (c ∷ q) [] d rest h at_d k = ground (arith, nil-append (d ∷ rest))
strip_prefix-slash (c ∷ q) (e ∷ s) d rest h at_d k =
    ground (arith, cons-append e s (d ∷ rest), strip_prefix-slash q s d rest)

split_once_found :
    (p s rest : String) → strip_prefix p s ≡ some rest → split_once p s ≡ some ([], rest)
unfolding split_once
split_once_found p [] rest e = rw e refl
split_once_found p (c ∷ s) rest e = rw (e, split_once) refl

split_once_later :
    (p : String) (c : Char) (s before rest : String)
    → strip_prefix p (c ∷ s) ≡ none
    → split_once p s ≡ some (before, rest)
    → split_once p (c ∷ s) ≡ some (c ∷ before, rest)
unfolding split_once
split_once_later p c s before rest e f = rw (e, split_once, f) refl

pub split_once_absent : (p s : String) → contains s p ≡ false → split_once p s ≡ none
unfolding split_once contains starts_with
split_once_absent p [] h = elim (Option-cases (strip_prefix p [])) [
  | inl none_found ↦ rw none_found refl
  | inr (rest, found) ↦ absurd (ground arith)
]
split_once_absent p (c ∷ s) h = elim (Option-cases (strip_prefix p (c ∷ s))) [
  | inl none_found ↦ ground (arith, split_once_absent p s)
  | inr (rest, found) ↦ absurd (ground arith)
]

rsplit_once_found :
    (p : String) (c : Char) (s rest : String)
    → strip_prefix p (c ∷ s) ≡ some rest
    → rsplit_once p s ≡ none
    → rsplit_once p (c ∷ s) ≡ some ([], rest)
unfolding rsplit_once
rsplit_once_found p c s rest e f = rw (f, e) refl

rsplit_once_later :
    (p : String) (c : Char) (s before rest : String)
    → rsplit_once p s ≡ some (before, rest)
    → rsplit_once p (c ∷ s) ≡ some (c ∷ before, rest)
unfolding rsplit_once
rsplit_once_later p c s before rest f = rw f refl

rsplit_once_absent :
    (p : String) (c : Char) (s : String)
    → strip_prefix p (c ∷ s) ≡ none
    → rsplit_once p s ≡ none
    → rsplit_once p (c ∷ s) ≡ none
unfolding rsplit_once
rsplit_once_absent p c s e f = rw (f, e) refl

-- A pattern that has a slash does not occur in a text without one.
rsplit_once-lacks :
    (p s : String) → lacks is_slash p ≡ false → lacks is_slash s ≡ true → rsplit_once p s ≡ none
unfolding rsplit_once
rsplit_once-lacks p [] h k = rw (strip_prefix-lacks p [] h refl) refl
rsplit_once-lacks p (c ∷ s) h k =
    rsplit_once_absent p c s (strip_prefix-lacks p (c ∷ s) h k)
      (rsplit_once-lacks p s h (ground arith))

module _ (d : Char) (q : String) (at_d : is_slash d ≡ true) (free : lacks is_slash q ≡ true) where
  strip_prefix-first :
      (c : Char) (s rest : String)
      → contains (c ∷ s) (d ∷ q) ≡ false
      → strip_prefix (d ∷ q) (c ∷ append s (d ∷ rest)) ≡ none
  unfolding contains starts_with strip_prefix
  strip_prefix-first c s rest h = elim (Option-cases (strip_prefix q s)) [
    | inl absent ↦ ground (arith, strip_prefix-slash q s d rest free at_d absent)
    | inr (found, e) ↦ ground arith
  ]

  -- A pattern whose only slash is its first character splits a text that does not hold it from what
  -- follows.
  pub split_once-slash :
      (s rest : String)
      → contains s (d ∷ q) ≡ false
      → split_once (d ∷ q) (append s (append (d ∷ q) rest)) ≡ some (s, rest)
  unfolding contains
  split_once-slash [] rest h =
      ap (split_once (d ∷ q)) (nil-append (append (d ∷ q) rest))
      ∙ split_once_found (d ∷ q) (append (d ∷ q) rest) rest (strip_prefix-append (d ∷ q) rest)
  split_once-slash (c ∷ s) rest h =
      ap (split_once (d ∷ q)) (cons-append c s (append (d ∷ q) rest))
      ∙ split_once_later (d ∷ q) c (append s (append (d ∷ q) rest)) s rest
          (rw (cons-append d q rest) (strip_prefix-first c s (append q rest) h))
          (split_once-slash s rest (ground arith))

contains_front : (p s rest : String) → strip_prefix p s ≡ some rest → contains s p ≡ true
unfolding contains starts_with
contains_front p [] rest e = rw e refl
contains_front p (c ∷ s) rest e = ground (arith, e)

pub contains-middle : (p s rest : String) → contains (append s (append p rest)) p ≡ true
unfolding contains
contains-middle p [] rest =
    ap (λ t. contains t p) (nil-append (append p rest))
    ∙ contains_front p (append p rest) rest (strip_prefix-append p rest)
contains-middle p (c ∷ s) rest =
    ap (λ t. contains t p) (cons-append c s (append p rest))
    ∙ ground (arith, contains-middle p s rest)

spell : (id : String) → append "p2p/" id ≡ "p" ∷ "2" ∷ "p" ∷ "/" ∷ id
spell id =
    cons-append "p" "2p/" id
    ∙ ap (◌∷◌ "p") (
        cons-append "2" "p/" id
        ∙ ap (◌∷◌ "2") (
            cons-append "p" "/" id
            ∙ ap (◌∷◌ "p") (cons-append "/" "" id ∙ ap (◌∷◌ "/") (nil-append id))))

p2p-absent :
    (id : String) → lacks is_slash id ≡ true → rsplit_once "/p2p/" (append "p2p/" id) ≡ none
unfolding strip_prefix
p2p-absent id h =
    ap (rsplit_once "/p2p/") (spell id)
    ∙ rsplit_once_absent "/p2p/" "p" _ refl (
        rsplit_once_absent "/p2p/" "2" _ refl (
          rsplit_once_absent "/p2p/" "p" _ refl (
            rsplit_once_absent "/p2p/" "/" id (strip_prefix-lacks "p2p/" id refl h)
              (rsplit_once-lacks "/p2p/" id refl h))))

-- An id without a slash is what follows the last "/p2p/".
pub rsplit_once-last :
    (s id : String)
    → lacks is_slash id ≡ true
    → rsplit_once "/p2p/" (append s (append "/p2p/" id)) ≡ some (s, id)
rsplit_once-last [] id h =
    ap (rsplit_once "/p2p/") (nil-append (append "/p2p/" id) ∙ cons-append "/" "p2p/" id)
    ∙ rsplit_once_found "/p2p/" "/" (append "p2p/" id) id
        (ap (strip_prefix "/p2p/") (sym (cons-append "/" "p2p/" id))
          ∙ strip_prefix-append "/p2p/" id)
        (p2p-absent id h)
rsplit_once-last (c ∷ s) id h =
    ap (rsplit_once "/p2p/") (cons-append c s (append "/p2p/" id))
    ∙ rsplit_once_later "/p2p/" c (append s (append "/p2p/" id)) s id (rsplit_once-last s id h)
