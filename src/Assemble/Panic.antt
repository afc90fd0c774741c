-- ===== src/Assemble/Panic.antt =====
-- A peer id that `short_peer_id` cannot cut ends the crawl.
use Prim.Native.String.{len}
use text.Mathlib.Text.{get?}
use kwaai_net_map.Prelude.{
  ◌-◌, ◌<◌, String, true, none, List, [], ◌∷◌, ◌≡◌, eq_iff, ◌∙◌, any, any-append, Option, some,
  false, is_some, refl, arith, Assoc, keys,
}
use kwaai_net_map.Prelude.Sorting.{member}
use kwaai_net_map.Snapshot.{DateTime, ServerInfo, Location, Contributor}
use kwaai_net_map.Observed.{Observed}
use kwaai_net_map.Assemble.{Model, PeerModelEntry}
use kwaai_net_map.Assemble.Build.{build_snapshot}
use kwaai_net_map.Assemble.Ids.{reported_ids, other_ids, any-reported_ids}
use kwaai_net_map.Assemble.Total.{is_uncut, is_some-build_snapshot}
use kwaai_net_map.Assemble.Issues.{peers_of}

is_uncut-member :
    (id : String) (l : List String)
    → is_uncut id ≡ true
    → member id l ≡ true
    → any is_uncut l ≡ true
is_uncut-member id [] u h = h
is_uncut-member id (j ∷ l) u h = ground (arith, eq_iff j id, is_uncut-member id l u)

is_uncut-reported_ids :
    (id : String) (per_model : Assoc (Assoc PeerModelEntry)) (models : List Model)
    → is_uncut id ≡ true
    → any (λ m. member id (keys (peers_of per_model m))) models ≡ true
    → any (λ m. any is_uncut (keys (peers_of per_model m))) models ≡ true
is_uncut-reported_ids id per_model [] u h = h
is_uncut-reported_ids id per_model (m ∷ models) u h = ground (
  arith,
  is_uncut-member id (keys (peers_of per_model m)) u,
  is_uncut-reported_ids id per_model models u,
)

none-is_some {ℓ} : {A : Type ℓ} (o : Option A) → is_some o ≡ false → o ≡ none
none-is_some none h = refl
none-is_some (some a) h = cc

-- One record under a listed model whose peer id is longer than ten bytes and cannot be cut six bytes
-- before its end is enough for the whole crawl to panic, whatever else it has read.
pub build_snapshot-panics :
    (into_values : Assoc Contributor → List Contributor) (locate : List String → Location)
    (now : DateTime) (bootstrap_states : List String) (models : List Model)
    (per_model : Assoc (Assoc PeerModelEntry)) (capability_peers : Assoc ServerInfo)
    (addrs : Assoc Observed) (dial_errors : Assoc String) (exclude : List String) (id : String)
    → 10 < len id
    → get? id (len id - 6) (len id) ≡ none
    → any (λ m. member id (keys (peers_of per_model m))) models ≡ true
    → build_snapshot into_values locate now bootstrap_states models per_model capability_peers addrs
        dial_errors exclude
      ≡ none
build_snapshot-panics into_values locate now bootstrap_states models per_model capability_peers
      addrs dial_errors exclude id long cut held =
    let uncut : is_uncut id ≡ true = rw cut (ground arith) in
    none-is_some _ (
      is_some-build_snapshot into_values locate now bootstrap_states models per_model
        capability_peers addrs dial_errors exclude
      ∙ ground (
        arith,
        any-append is_uncut (reported_ids per_model models)
            (other_ids capability_peers addrs exclude),
        any-reported_ids is_uncut per_model models,
        is_uncut-reported_ids id per_model models uncut held,
      ))
