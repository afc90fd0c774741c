-- ===== src/Routes/Exposition/Reading.antt =====
-- What a scraper reads from the text of `metrics`.
use Prim.Native.Char.{Char, code}
use text.Mathlib.TextLemmas.{append_assoc, nil-append, cons-append}
use kwaai_net_map.Prelude.{
  String, Bool, true, false, not, ◌&&◌, Option, some, none, or_else, List, [], ◌∷◌, ◌≡◌, refl, ap,
  sym, ◌∙◌, ◌==◌, if◌then◌else◌, eqb, All, any, arith, Bool-cases, inl, inr, eq_iff,
}
use kwaai_net_map.Prelude.F64.{F64}
use kwaai_net_map.Text.{append, strip_prefix, split_on}
use kwaai_net_map.Text.Pieces.{
  lacks, split_on-append, lacks-append, strip_prefix-append, differs, strip_prefix-differs,
}
use kwaai_net_map.Routes.{Metrics}
use kwaai_net_map.Routes.Exposition.{Gauge, gauges, line, gauge, exposition, metrics_text}

abbrev pub is_newline : Char → Bool
is_newline c = eqb (code c) 10

-- The value on the first line that begins with the name and a space.
abbrev sample : String → List String → Option String
sample name [] = none
sample name (l ∷ lines) = or_else (strip_prefix (append name " ") l) (sample name lines)

abbrev pub read_gauge : String → String → Option String
read_gauge name text = sample name (split_on is_newline text)

split_on-line :
    (s rest : String)
    → lacks is_newline s ≡ true
    → split_on is_newline (line s rest) ≡ s ∷ split_on is_newline rest
split_on-line s rest h =
    ap (λ t. split_on is_newline (append s t))
      (cons-append "\n" "" rest ∙ ap (String.◌∷◌ "\n") (nil-append rest))
    ∙ split_on-append is_newline s "\n" rest h refl

-- The line is not one of the gauge's.
abbrev is_other : String → String → Bool
is_other name s = differs (append name " ") s

read_gauge-line :
    (name q s rest : String)
    → lacks is_newline (append q s) ≡ true
    → is_other name q ≡ true
    → read_gauge name (line (append q s) rest) ≡ read_gauge name rest
read_gauge-line name q s rest h d =
    rw (split_on-line (append q s) rest h, strip_prefix-differs (append name " ") q s d) refl

-- Neither text has a line break.
abbrev pub is_plain : Gauge → Bool
is_plain g = lacks is_newline g.name && lacks is_newline g.help

-- A comment begins otherwise than the gauge.
abbrev no_comment : String → Bool
no_comment name = is_other name "# HELP " && is_other name "# TYPE "

module _ (display : F64 → String) (one_line : (v : F64) → lacks is_newline (display v) ≡ true) where
  read_gauge-comments :
      (name : String) (g : Gauge) (rest : String)
      → is_plain g ≡ true
      → no_comment name ≡ true
      → read_gauge name (gauge display g rest)
        ≡ read_gauge name (line (append g.name (append " " (display g.value))) rest)
  unfolding gauge
  read_gauge-comments name g rest plain d =
      read_gauge-line name "# HELP " (append g.name (append " " g.help)) _
        (ground (
          arith,
          lacks-append is_newline "# HELP " (append g.name (append " " g.help)),
          lacks-append is_newline g.name (append " " g.help),
          lacks-append is_newline " " g.help,
        ))
        (ground arith)
      ∙ read_gauge-line name "# TYPE " (append g.name " gauge") _
          (ground (
            arith,
            lacks-append is_newline "# TYPE " (append g.name " gauge"),
            lacks-append is_newline g.name " gauge",
          ))
          (ground arith)

  plain_value :
      (g : Gauge)
      → is_plain g ≡ true
      → lacks is_newline (append (append g.name " ") (display g.value)) ≡ true
  plain_value g plain = ground (
    arith,
    lacks-append is_newline (append g.name " ") (display g.value),
    lacks-append is_newline g.name " ",
    one_line g.value,
  )

  read_gauge-other :
      (name : String) (g : Gauge) (rest : String)
      → is_plain g ≡ true
      → no_comment name ≡ true
      → is_other name (append g.name " ") ≡ true
      → read_gauge name (gauge display g rest) ≡ read_gauge name rest
  read_gauge-other name g rest plain d apart =
      read_gauge-comments name g rest plain d
      ∙ ap (λ t. read_gauge name (line t rest)) (sym (append_assoc g.name " " (display g.value)))
      ∙ read_gauge-line name (append g.name " ") (display g.value) rest (plain_value g plain) apart

  read_gauge-own :
      (g : Gauge) (rest : String)
      → is_plain g ≡ true
      → no_comment g.name ≡ true
      → read_gauge g.name (gauge display g rest) ≡ some (display g.value)
  read_gauge-own g rest plain d =
      read_gauge-comments g.name g rest plain d
      ∙ ap (λ t. read_gauge g.name (line t rest)) (sym (append_assoc g.name " " (display g.value)))
      ∙ rw
          (
            split_on-line (append (append g.name " ") (display g.value)) rest (plain_value g plain),
            strip_prefix-append (append g.name " ") (display g.value),
          )
          refl

  -- The value of the first gauge of the name.
  abbrev value_of : String → List Gauge → Option String
  value_of name [] = none
  value_of name (g ∷ gs) = if g.name == name then some (display g.value) else value_of name gs

  abbrev is_clash : String → Gauge → Bool
  is_clash name g = not (g.name == name) && not (is_other name (append g.name " "))

  read_gauge-empty : (name : String) → read_gauge name "" ≡ none
  unfolding split_on strip_prefix
  read_gauge-empty String.[] = refl
  read_gauge-empty (String.◌∷◌ c name) = rw (cons-append c name " ") refl

  read_gauge-exposition :
      (name : String) (gs : List Gauge)
      → any (λ g. not (is_plain g)) gs ≡ false
      → no_comment name ≡ true
      → any (is_clash name) gs ≡ false
      → read_gauge name (exposition display gs) ≡ value_of name gs
  unfolding exposition
  read_gauge-exposition name [] plain d apart = read_gauge-empty name
  read_gauge-exposition name (g ∷ gs) plain d apart = elim (Bool-cases (g.name == name)) [
    | inl same ↦
        let here : g.name ≡ name = (eq_iff g.name name).0 same in
        rw (same, sym here) (read_gauge-own g (exposition display gs) (ground arith) (rw here d))
    | inr other ↦
        read_gauge-other name g (exposition display gs) (ground arith) d (ground arith)
        ∙ read_gauge-exposition name gs (ground arith) d (ground arith)
        ∙ rw other refl
  ]

  read_gauge-metrics_text :
      (m : Metrics) (name : String)
      → no_comment name ≡ true
      → any (is_clash name) (gauges m) ≡ false
      → read_gauge name (metrics_text display m) ≡ value_of name (gauges m)
  unfolding metrics_text gauges
  read_gauge-metrics_text m name d apart = read_gauge-exposition name (gauges m) refl d apart

  -- If the text of no float has a line break, then whatever the values are, a scraper that looks in
  -- the exposition for the line of a gauge's name reads the value that was written for that gauge.
  pub metrics_text-read_gauge :
      (m : Metrics)
      → All (λ g. read_gauge g.name (metrics_text display m) ≡ some (display g.value)) (gauges m)
  unfolding gauges
  metrics_text-read_gauge m = (
    read_gauge-metrics_text m "kwaainet_nodes" refl refl,
    (
      read_gauge-metrics_text m "kwaainet_peers" refl refl,
      (
        read_gauge-metrics_text m "kwaainet_tokens_per_second" refl refl,
        (
          read_gauge-metrics_text m "kwaainet_block_coverage_percent" refl refl,
          (
            read_gauge-metrics_text m "kwaainet_blocks_covered" refl refl,
            (
              read_gauge-metrics_text m "kwaainet_models" refl refl,
              (
                read_gauge-metrics_text m "kwaainet_bootstraps_online" refl refl,
                (
                  read_gauge-metrics_text m "kwaainet_bootstraps_total" refl refl,
                  (read_gauge-metrics_text m "kwaainet_last_crawl_timestamp_seconds" refl refl, tt),
                ),
              ),
            ),
          ),
        ),
      ),
    ),
  )
