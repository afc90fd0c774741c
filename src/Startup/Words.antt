-- ===== src/Startup/Words.antt =====
-- The list of bootstraps in `BOOTSTRAP_PEERS`.
use Prim.Native.String.{[], ◌∷◌}
use text.Mathlib.TextLemmas.{nil-append, cons-append}
use kwaai_net_map.Prelude.{
  String, Bool, true, not, ◌&&◌, some, List, ◌≡◌, refl, ap, ◌∙◌, ◌==◌, select, All, arith,
}
use kwaai_net_map.Text.{append, is_whitespace, split_on, split_whitespace}
use kwaai_net_map.Text.Pieces.{lacks, split_on-append, split_on-lacks}
use kwaai_net_map.Startup.{Vars, bootstrap_peers}

abbrev pub is_word : String → Bool
is_word s = not (s == "") && lacks is_whitespace s

-- The words with one space between them.
abbrev pub unwords : List String → String
unwords List.[] = ""
unwords (List.◌∷◌ w List.[]) = w
unwords (List.◌∷◌ w (List.◌∷◌ v ws)) = append w (append " " (unwords (List.◌∷◌ v ws)))

split_on-space :
    (w s : String)
    → lacks is_whitespace w ≡ true
    → split_on is_whitespace (append w (append " " s)) ≡ List.◌∷◌ w (split_on is_whitespace s)
split_on-space w s free =
    ap (λ t. split_on is_whitespace (append w t))
      (cons-append " " [] s ∙ ap (◌∷◌ " ") (nil-append s))
    ∙ split_on-append is_whitespace w " " s free refl

-- What is split at the spaces.
split_whitespace-unwords :
    (ws : List String) → All (λ w. is_word w ≡ true) ws → split_whitespace (unwords ws) ≡ ws
unfolding split_whitespace split_on
split_whitespace-unwords List.[] h = refl
split_whitespace-unwords (List.◌∷◌ w List.[]) h = ground (arith, split_on-lacks is_whitespace w)
split_whitespace-unwords (List.◌∷◌ w (List.◌∷◌ v ws)) h =
    ground
      (arith, split_on-space w (unwords (List.◌∷◌ v ws)), split_whitespace-unwords (List.◌∷◌ v ws))

select-words :
    (ws : List String) → All (λ w. is_word w ≡ true) ws → select (λ s. not (s == "")) ws ≡ ws
select-words List.[] h = refl
select-words (List.◌∷◌ w ws) h = ground (arith, select-words ws)

-- If `BOOTSTRAP_PEERS` lists any words, none of them empty and none with white space inside, with one
-- space between each two, then the bootstraps are those words in that order.
pub bootstrap_peers-unwords :
    (vars : Vars) (ws : List String)
    → All (λ w. is_word w ≡ true) ws
    → vars "BOOTSTRAP_PEERS" ≡ some (unwords ws)
    → bootstrap_peers vars ≡ ws
unfolding bootstrap_peers
bootstrap_peers-unwords vars ws h listed =
    rw (listed, split_whitespace-unwords ws h) (select-words ws h)
