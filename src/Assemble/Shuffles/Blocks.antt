-- ===== src/Assemble/Shuffles/Blocks.antt =====
-- The order in which a hash map yields a model's peers does not show in `block_of`, nor in the peers
-- that get a row: `build_snapshot` of map-server/src/crawler.rs.
use kwaai_net_map.Prelude.{
  String, false, not, ◌&&◌, Option, none, some, List, [], ◌∷◌, ◌++◌, ◌≡◌, refl, ◌∙◌, sym, ap, ◌==◌,
  eq_iff, if◌then◌else◌, unwrap_or, is_some, arith, Assoc, keys, lookup,
}
use kwaai_net_map.Prelude.Sorting.{member, member-append, member-select}
use kwaai_net_map.Prelude.Shuffle.{
  Shuffle, same, keep, swap, next, SameMap, member-Shuffle, member-keys,
}
use kwaai_net_map.Prelude.TextSets.{text_set_ext}
use kwaai_net_map.Snapshot.{ServerInfo}
use kwaai_net_map.Observed.{Observed}
use kwaai_net_map.Assemble.{Model, PeerModelEntry, is_online}
use kwaai_net_map.Assemble.Rows.{note_block, note_blocks, block_of, kad_peers, row_ids}

-- The peers of a model in another order, if the model has an entry at all.
abbrev pub ShuffleOption : Option (Assoc PeerModelEntry) → Option (Assoc PeerModelEntry) → Type 0
ShuffleOption none none = Unit
ShuffleOption none (some m) = ⊥
ShuffleOption (some l) none = ⊥
ShuffleOption (some l) (some m) = Shuffle l m

-- Under every prefix the same peers, in some order.
abbrev pub ShuffleEach : Assoc (Assoc PeerModelEntry) → Assoc (Assoc PeerModelEntry) → Type 0
ShuffleEach per_model others =
    (prefix : String) → ShuffleOption (lookup prefix per_model) (lookup prefix others)

abbrev Blocks : Type 0
Blocks = Assoc (Model × PeerModelEntry)

-- What is noted for a peer, by what was.
abbrev noted : Model → PeerModelEntry → Option (Model × PeerModelEntry) → Model × PeerModelEntry
noted model entry none = (model, entry)
noted model entry (some cur) =
    if not (is_online cur.1.info) && is_online entry.info then (model, entry) else cur

lookup-note_block :
    (model : Model) (id k : String) (entry : PeerModelEntry) (blocks : Blocks)
    → lookup k (note_block model id entry blocks)
      ≡ (if id == k then some (noted model entry (lookup id blocks)) else lookup k blocks)
unfolding lookup note_block
lookup-note_block model id k entry [] = refl
lookup-note_block model id k entry ((j, cur) ∷ blocks) =
    ground (arith, lookup-note_block model id k entry blocks, eq_iff j id, eq_iff j k, eq_iff id k)

note_block-SameMap :
    (model : Model) (id : String) (entry : PeerModelEntry) (b c : Blocks)
    → SameMap b c
    → SameMap (note_block model id entry b) (note_block model id entry c)
note_block-SameMap model id entry b c agree k =
    lookup-note_block model id k entry b
    ∙ rw (agree id, agree k) (sym (lookup-note_block model id k entry c))

note_blocks-SameMap :
    (model : Model) (peers : Assoc PeerModelEntry) (b c : Blocks)
    → SameMap b c
    → SameMap (note_blocks model peers b) (note_blocks model peers c)
unfolding note_blocks
note_blocks-SameMap model [] b c agree = agree
note_blocks-SameMap model ((id, entry) ∷ peers) b c agree =
    note_blocks-SameMap model peers (note_block model id entry b) (note_block model id entry c)
      (note_block-SameMap model id entry b c agree)

note_block-swap :
    (model : Model) (i j : String) (e f : PeerModelEntry) (b : Blocks)
    → (i == j) ≡ false
    → SameMap
        (note_block model j f (note_block model i e b))
        (note_block model i e (note_block model j f b))
note_block-swap model i j e f b ne k = ground (
  arith,
  lookup-note_block model j k f (note_block model i e b),
  lookup-note_block model i k e (note_block model j f b),
  lookup-note_block model i k e b,
  lookup-note_block model j k f b,
  lookup-note_block model i j e b,
  lookup-note_block model j i f b,
  eq_iff i j,
  eq_iff j i,
  eq_iff i k,
  eq_iff j k,
)

note_blocks-Shuffle :
    (model : Model) (l m : Assoc PeerModelEntry) (b : Blocks)
    → Shuffle l m
    → SameMap (note_blocks model l b) (note_blocks model m b)
unfolding note_blocks
note_blocks-Shuffle model l m b same k = refl
note_blocks-Shuffle model l m b (keep {p} {l = l'} {m = m'} s) k =
    note_blocks-Shuffle model l' m' (note_block model p.0 p.1 b) s k
note_blocks-Shuffle model l m b (swap {p} {q} {l = l'} ne) k =
    note_blocks-SameMap model l' _ _ (note_block-swap model p.0 q.0 p.1 q.1 b ne) k
note_blocks-Shuffle model l m b (next {m = n} s s') k =
    note_blocks-Shuffle model l n b s k ∙ note_blocks-Shuffle model n m b s' k

note_found :
    (model : Model) (o p : Option (Assoc PeerModelEntry)) (b c : Blocks)
    → ShuffleOption o p
    → SameMap b c
    → SameMap (note_blocks model (unwrap_or o []) b) (note_blocks model (unwrap_or p []) c)
note_found model none none b c s agree k = note_blocks-SameMap model [] b c agree k
note_found model none (some m) b c s agree k = absurd s
note_found model (some l) none b c s agree k = absurd s
note_found model (some l) (some m) b c s agree k =
    note_blocks-Shuffle model l m b s k ∙ note_blocks-SameMap model m b c agree k

pub block_of-SameMap :
    (models : List Model) (per_model others : Assoc (Assoc PeerModelEntry)) (b c : Blocks)
    → ShuffleEach per_model others
    → SameMap b c
    → SameMap (block_of models per_model b) (block_of models others c)
unfolding block_of
block_of-SameMap [] per_model others b c s agree = agree
block_of-SameMap (model ∷ models) per_model others b c s agree =
    block_of-SameMap models per_model others _ _ s (
      note_found model (lookup model.dht_prefix per_model) (lookup model.dht_prefix others) b c
        (s model.dht_prefix) agree)

member_of_keys :
    {V : Type 0} (k : String) (l m : Assoc V) → SameMap l m → member k (keys l) ≡ member k (keys m)
member_of_keys k l m agree = member-keys k l ∙ ap is_some (agree k) ∙ sym (member-keys k m)

pub row_ids_ext :
    (b c : Blocks) (capable others : Assoc ServerInfo) (addrs seen : Assoc Observed)
    (exclude : List String)
    → SameMap b c
    → SameMap capable others
    → Shuffle addrs seen
    → row_ids b capable addrs exclude ≡ row_ids c others seen exclude
unfolding row_ids
row_ids_ext b c capable others addrs seen exclude same_blocks same_infos s = text_set_ext _ _ (λ k.
    ground (
      arith,
      member-select (λ id. not (member id exclude)) k (keys b ++ (keys capable ++ kad_peers addrs)),
      member-select (λ id. not (member id exclude)) k (keys c ++ (keys others ++ kad_peers seen)),
      member-append k (keys b) (keys capable ++ kad_peers addrs),
      member-append k (keys c) (keys others ++ kad_peers seen),
      member-append k (keys capable) (kad_peers addrs),
      member-append k (keys others) (kad_peers seen),
      member_of_keys k b c same_blocks,
      member_of_keys k capable others same_infos,
      member-Shuffle (λ e. e.1.kwaai_kad) k addrs seen s,
    ))
