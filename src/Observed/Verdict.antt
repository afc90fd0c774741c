-- ===== src/Observed/Verdict.antt =====
-- When `classify` gives each verdict, and which addresses it keeps.
use kwaai_net_map.Prelude.{
  String, Bool, true, false, none, List, [], ◌∷◌, map, ◌≡◌, ◌↔◌, not, any, select, is_empty, All,
  Any, arith, refl, inl, inr, Bool-cases,
}
use kwaai_net_map.Text.{contains}
use kwaai_net_map.Observed.{
  Conn, Direction, Reachability, is_circuit, is_direct, circuit_addr, classify,
}

-- What a connection is evidence of.
abbrev pub IsPlain : Conn → Type 0
IsPlain c = (contains c.addr "/p2p-circuit" ≡ false) × (c.via ≡ none)

abbrev pub IsDialed : Conn → Type 0
IsDialed c = (c.direction ≡ Direction.outbound) × IsPlain c

abbrev pub IsPunched : Conn → Type 0
IsPunched c = c.dcutr ≡ true

any_iff : (p : Conn → Bool) (l : List Conn) → (any p l ≡ true) ↔ Any (λ c. p c ≡ true) l
any_iff p [] = ground arith
any_iff p (c ∷ l) = grind (arith, any_iff p l)

is_direct_iff : (c : Conn) → (is_direct c ≡ true) ↔ IsDialed c
is_direct_iff c = grind arith

module _ (p : Conn → Bool) where
  is_empty-select : (l : List Conn) → is_empty (select p l) ≡ not (any p l)
  is_empty-select [] = refl
  is_empty-select (c ∷ l) = ground (arith, is_empty-select l)

is_empty-map {κ} : {B : Type κ} (f : Conn → B) (l : List Conn) → is_empty (map f l) ≡ is_empty l
is_empty-map f [] = refl
is_empty-map f (c ∷ l) = refl

-- The order in which the evidence is trusted, on the three tests alone.
abbrev pub trusted : Bool → Bool → Bool → Reachability
trusted true _ _ = Reachability.punched
trusted false true _ = Reachability.direct
trusted false false true = Reachability.relayed
trusted false false false = Reachability.inbound

reachability-classify :
    (id : String) (l : List Conn)
    → (classify id l).reachability
      ≡ trusted (any (λ c. c.dcutr) l) (any is_direct l) (any is_circuit l)
unfolding classify
reachability-classify id l = ground (
  arith,
  is_empty-map (λ c. c.addr) (select is_direct l),
  is_empty-map (circuit_addr id) (select is_circuit l),
  is_empty-select is_direct l,
  is_empty-select is_circuit l,
)

any-true : (p : Conn → Bool) (l : List Conn) → Any (λ c. p c ≡ true) l → any p l ≡ true
any-true p l h = (any_iff p l).1 h

any-false_iff : (p : Conn → Bool) (l : List Conn) → (any p l ≡ false) ↔ All (λ c. p c ≡ false) l
any-false_iff p [] = ground arith
any-false_iff p (c ∷ l) = grind (arith, any-false_iff p l)

undialed_iff :
    (l : List Conn)
    → ((any (λ c. c.dcutr) l ≡ false) × (any is_direct l ≡ false) × (any is_circuit l ≡ false))
      ↔ All (λ c. (c.direction ≡ Direction.inbound) × IsPlain c × (c.dcutr ≡ false)) l
undialed_iff [] = ground arith
undialed_iff (c ∷ l) = grind (arith, undialed_iff l)

-- The address is that of one of the connections, and that one has the property.
abbrev pub ComesFrom : (Conn → Type 0) → List Conn → String → Type 0
ComesFrom P l a = Any (λ c. (c.addr ≡ a) × P c) l

ComesFrom-weaken :
    (P : Conn → Type 0) (c : Conn) (l : List Conn) (addrs : List String)
    → All (ComesFrom P l) addrs
    → All (ComesFrom P (c ∷ l)) addrs
ComesFrom-weaken P c l [] h = tt
ComesFrom-weaken P c l (a ∷ addrs) h = (inr h.0, ComesFrom-weaken P c l addrs h.1)

map-select-ComesFrom :
    (P : Conn → Type 0) (p : Conn → Bool)
    → ((c : Conn) → p c ≡ true → P c)
    → (l : List Conn) → All (ComesFrom P l) (map (λ c. c.addr) (select p l))
map-select-ComesFrom P p sound [] = tt
map-select-ComesFrom P p sound (c ∷ l) =
    let rest = ComesFrom-weaken P c l _ (map-select-ComesFrom P p sound l) in
    elim (Bool-cases (p c)) [
      | inl kept ↦ rw kept (inl (refl, sound c kept), rest)
      | inr dropped ↦ rw dropped rest
    ]

outbound_iff : (l : List Conn) → (any is_direct l ≡ true) ↔ Any IsDialed l
outbound_iff [] = ground arith
outbound_iff (c ∷ l) = grind (arith, outbound_iff l, is_direct_iff c)

carried_iff : (l : List Conn) → (any is_circuit l ≡ true) ↔ Any (λ c. ¬ IsPlain c) l
carried_iff [] = ground arith
carried_iff (c ∷ l) = grind (arith, carried_iff l)

plain_dials_iff :
    (l : List Conn)
    → ((any (λ c. c.dcutr) l ≡ false) × (any is_direct l ≡ false))
      ↔ All (λ c. (c.dcutr ≡ false) × ¬ IsDialed c) l
plain_dials_iff [] = ground arith
plain_dials_iff (c ∷ l) = grind (arith, plain_dials_iff l, is_direct_iff c)

module _ (id : String) (l : List Conn) where
  -- The verdict is "punched" exactly when DCUtR made one of the connections. If it made none, the
  -- verdict is "direct" exactly when the observer dialed one of them and no relay carries that one,
  -- by its address or by the listener that it came through; it is "relayed" exactly when there is no
  -- such connection but a relay carries one; and else "inbound": the peer dialed each of them.
  pub classify_punched_direct :
      (((classify id l).reachability ≡ Reachability.punched) ↔ Any IsPunched l)
      × (((classify id l).reachability ≡ Reachability.direct)
          ↔ (All (λ c. c.dcutr ≡ false) l × Any IsDialed l))
      × (((classify id l).reachability ≡ Reachability.relayed)
          ↔ (All (λ c. (c.dcutr ≡ false) × ¬ IsDialed c) l × Any (λ c. ¬ IsPlain c) l))
      × (((classify id l).reachability ≡ Reachability.inbound)
          ↔ All (λ c. (c.direction ≡ Direction.inbound) × IsPlain c × (c.dcutr ≡ false)) l)
  classify_punched_direct = ground (
    arith,
    reachability-classify id l,
    any_iff (λ c. c.dcutr) l,
    any-false_iff (λ c. c.dcutr) l,
    outbound_iff l,
    carried_iff l,
    plain_dials_iff l,
    undialed_iff l,
  )

  -- A verdict of "inbound" is given exactly when every connection is plain and was dialed by the
  -- peer, and none was punched: nothing then shows that anyone can dial the peer.
  pub classify_inbound :
      ((classify id l).reachability ≡ Reachability.inbound)
      ↔ All (λ c. (c.direction ≡ Direction.inbound) × IsPlain c × (c.dcutr ≡ false)) l
  classify_inbound = ground (arith, reachability-classify id l, undialed_iff l)

  -- Under the verdict "direct" every reported address is that of a connection which the observer
  -- dialed and which no relay carries.
  pub classify_direct_addrs :
      (classify id l).reachability ≡ Reachability.direct
      → All (ComesFrom IsDialed l) (classify id l).addrs
  unfolding classify
  classify_direct_addrs h =
      ground (arith, map-select-ComesFrom IsDialed is_direct (λ c. (is_direct_iff c).0) l)
