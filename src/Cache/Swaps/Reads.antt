-- ===== src/Cache/Swaps/Reads.antt =====
-- What a request reads while the crawler publishes.
use mathlib.Core.Path.{subst}
use mathlib.Core.List.{append-nil, append_assoc}
use kwaai_net_map.Prelude.{
  ◌+◌, ◌≤◌, List, [], ◌∷◌, ◌++◌, ◌≡◌, refl, ap, sym, ◌∙◌, length, length-append, arith,
}
use kwaai_net_map.Snapshot.{Snapshot}
use kwaai_net_map.Cache.{NodeCache, NodeEntry, merge_crawl, node_entries, publish}
use kwaai_net_map.Cache.Holding.{publish_all}
use kwaai_net_map.Cache.Swaps.{
  Writer, outside, merged, derived, Reader, waiting, has_snapshot, has_both, System, Step, merge,
  swap_snapshot, swap_nodes, read_snapshot, read_nodes, respond, Reach, start, later,
}

abbrev pub IsPrefix : List Snapshot → List Snapshot → Type 0
IsPrefix some_of crawls = (rest : List Snapshot) × (some_of ++ rest ≡ crawls)

IsPrefix-append : (l crawls more : List Snapshot) → IsPrefix l crawls → IsPrefix l (crawls ++ more)
IsPrefix-append l crawls more (rest, e) =
    (rest ++ more, sym (append_assoc l rest more) ∙ ap (λ xs. xs ++ more) e)

IsPrefix-refl : (crawls : List Snapshot) → IsPrefix crawls crawls
IsPrefix-refl crawls = ([], append-nil crawls)

length-IsPrefix : (l crawls : List Snapshot) → IsPrefix l crawls → length l ≤ length crawls
length-IsPrefix l crawls (rest, e) = omega (arith, length-append l rest, ap length e)

publish_all-append :
    (c : NodeCache) (crawls : List Snapshot) (fresh : Snapshot)
    → publish_all c (crawls ++ fresh ∷ []) ≡ publish fresh (publish_all c crawls)
unfolding publish_all
publish_all-append c [] fresh = refl
publish_all-append c (s ∷ crawls) fresh = publish_all-append (publish s c) crawls fresh

module _ (c : NodeCache) where
  -- The nodes that were served after some of the crawls, all or all but the last.
  abbrev AreRecent : List Snapshot → List NodeEntry → Type 0
  AreRecent crawls entries =
      (l : List Snapshot) × IsPrefix l crawls
      × (length crawls ≤ length l + 1)
      × (entries ≡ (publish_all c l).nodes)

  abbrev IsWriting : List Snapshot → NodeCache → Writer → Type 0
  IsWriting crawls cache outside = cache.nodes ≡ (publish_all c crawls).nodes
  IsWriting crawls cache (merged fresh served) =
      (cache.nodes ≡ (publish_all c crawls).nodes) × (served ≡ merge_crawl cache.snapshot fresh)
  IsWriting crawls cache (derived entries) =
      AreRecent crawls cache.nodes × (entries ≡ (publish_all c crawls).nodes)

  -- The snapshot was served after some of the crawls.
  abbrev pub IsServed : List Snapshot → List Snapshot → Snapshot → Type 0
  IsServed crawls l read = IsPrefix l crawls × (read ≡ (publish_all c l).snapshot)

  -- The pair that a request reads: the snapshot after some of the crawls, and nodes of after those or
  -- more of them, or of after all of those but the last.
  abbrev pub IsRead : List Snapshot → Snapshot → List NodeEntry → Type 0
  IsRead crawls read entries =
      (l k : List Snapshot) × IsServed crawls l read
      × IsPrefix k crawls
      × (entries ≡ (publish_all c k).nodes)
      × (length l ≤ length k + 1)

  abbrev IsReading : List Snapshot → Reader → Type 0
  IsReading crawls waiting = Unit
  IsReading crawls (has_snapshot read) = (l : List Snapshot) × IsServed crawls l read
  IsReading crawls (has_both read entries) = IsRead crawls read entries

  record IsKept (crawls : List Snapshot) (s : System) : Type 0 where
    snapshot : s.cache.snapshot ≡ (publish_all c crawls).snapshot
    writing : IsWriting crawls s.cache s.writer
    reading : IsReading crawls s.reader

  IsReading-append :
      (crawls more : List Snapshot) (r : Reader) → IsReading crawls r → IsReading (crawls ++ more) r
  IsReading-append crawls more waiting h = tt
  IsReading-append crawls more (has_snapshot read) (l, (at_l, e)) =
      (l, (IsPrefix-append l crawls more at_l, e))
  IsReading-append crawls more (has_both read entries) (l, k, (at_l, e), at_k, f, le) =
      (l, k, (IsPrefix-append l crawls more at_l, e), IsPrefix-append k crawls more at_k, f, le)

  -- What the nodes are, wherever the writer stands.
  AreRecent-IsWriting :
      (crawls : List Snapshot) (cache : NodeCache) (w : Writer)
      → IsWriting crawls cache w
      → AreRecent crawls cache.nodes
  AreRecent-IsWriting crawls cache outside h = (crawls, IsPrefix-refl crawls, omega arith, h)
  AreRecent-IsWriting crawls cache (merged fresh served) h =
      (crawls, IsPrefix-refl crawls, omega arith, h.0)
  AreRecent-IsWriting crawls cache (derived entries) h = h.0

  at_writer :
      (crawls : List Snapshot) (s : System) (w : Writer)
      → s.writer ≡ w
      → IsKept crawls s
      → IsWriting crawls s.cache w
  at_writer crawls s w e kept = subst (λ v. IsWriting crawls s.cache v) e kept.writing

  at_reader :
      (crawls : List Snapshot) (s : System) (r : Reader)
      → s.reader ≡ r
      → IsKept crawls s
      → IsReading crawls r
  at_reader crawls s r e kept = subst (λ v. IsReading crawls v) e kept.reading

  Step-IsKept :
      (crawls more : List Snapshot) (s t : System)
      → Step s more t
      → IsKept crawls s
      → IsKept (crawls ++ more) t
  unfolding publish
  Step-IsKept crawls more s t (merge fresh e) kept = rw append-nil (record {
    snapshot = kept.snapshot;
    writing = (at_writer crawls s outside e kept, refl);
    reading = kept.reading;
  })
  Step-IsKept crawls more s t (swap_snapshot {fresh} {served} e) kept =
      let (nodes, merging) = at_writer crawls s (merged fresh served) e kept in
      let joined = publish_all-append c crawls fresh in
      let now = merging ∙ ap (λ b. merge_crawl b fresh) kept.snapshot in
      record {
        snapshot = now ∙ sym (ap (λ b. b.snapshot) joined);
        writing = (
          (crawls, (fresh ∷ [], refl), omega (arith, length-append crawls (fresh ∷ [])), nodes),
          ap node_entries now ∙ sym (ap (λ b. b.nodes) joined),
        );
        reading = IsReading-append crawls (fresh ∷ []) s.reader kept.reading;
      }
  Step-IsKept crawls more s t (swap_nodes {entries} e) kept = rw append-nil (record {
    snapshot = kept.snapshot;
    writing = (at_writer crawls s (derived entries) e kept).1;
    reading = kept.reading;
  })
  Step-IsKept crawls more s t (read_snapshot e) kept = rw append-nil (record {
    snapshot = kept.snapshot;
    writing = kept.writing;
    reading = (crawls, (IsPrefix-refl crawls, kept.snapshot));
  })
  Step-IsKept crawls more s t (read_nodes {read} e) kept =
      let (l, (at_l, f)) = at_reader crawls s (has_snapshot read) e kept in
      let (k, at_k, le, g) = AreRecent-IsWriting crawls s.cache s.writer kept.writing in
      rw append-nil (record {
        snapshot = kept.snapshot;
        writing = kept.writing;
        reading = (l, k, (at_l, f), at_k, g, omega (arith, length-IsPrefix l crawls at_l));
      })
  Step-IsKept crawls more s t (respond e) kept =
      rw append-nil (record { snapshot = kept.snapshot; writing = kept.writing; reading = tt })

  Reach-IsKept : (crawls : List Snapshot) (s : System) → Reach c crawls s → IsKept crawls s
  unfolding publish_all
  Reach-IsKept crawls s start = record { snapshot = refl; writing = refl; reading = tt }
  Reach-IsKept crawls s (later {crawls = before} {more} {s = b} r step) =
      Step-IsKept before more b s step (Reach-IsKept before b r)

  -- Between the crawls, what is served is what publishing the swapped crawls one after the other serves.
  pub cache-publish_all :
      (crawls : List Snapshot) (s : System)
      → Reach c crawls s
      → s.writer ≡ outside
      → s.cache ≡ publish_all c crawls
  cache-publish_all crawls s r e =
      let kept = Reach-IsKept crawls s r in
      let nodes = at_writer crawls s outside e kept in ground (arith, kept.snapshot, nodes)

  -- However the steps of the crawler's publishing and of a request interleave, the request reads a
  -- snapshot that was served after some of the crawls, and nodes that were derived after those crawls
  -- or more of them, or else after all of those but the last.
  pub reads_served :
      (crawls : List Snapshot) (s : System) (read : Snapshot) (entries : List NodeEntry)
      → Reach c crawls s
      → s.reader ≡ has_both read entries
      → IsRead crawls read entries
  reads_served crawls s read entries r e =
      at_reader crawls s (has_both read entries) e (Reach-IsKept crawls s r)
