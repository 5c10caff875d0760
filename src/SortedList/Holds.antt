-- ===== src/SortedList/Holds.antt =====
-- net/sorted_list.rs: which items a `SortedList` holds, and the steps that its operations share.
use minifto.Common.{
  ◌<◌, ◌≡◌, refl, sym, subst, Bool, true, false, Option, some, List, [], ◌∷◌, ◌++◌, length, All,
  arith, returns,
}
use minifto.SortedList.{
  Eq, Ptr, Heap, SortedList, update, box, lookup, erase, to_front, take_node, drop_node,
}
use minifto.SortedList.Addresses.{has, has-append, distinct, distinct-prefix}
use minifto.SortedList.Ring.{
  Ring, unlink, link, Ring-live, Ring-below, Ring-unlink, detach-Ring, erased-Ring, attach-Ring,
  Ring-link, Ring-free, Ring-val,
}
use minifto.SortedList.Table.{
  distinct_keys, lookup-erase, distinct_keys-erase, length-erase, Nodes, ptrs, has-ptrs, ptrs-erase,
  All-erase,
}
use mathlib.Core.Option

module _ {K V : Type 0} where
  -- The node of an item holds its key and its value.
  abbrev pub Stored : Heap K V → K × (Ptr × V) → Type 0
  Stored h n = (h.key n.1.0 ≡ some n.0) × (h.val n.1.0 ≡ some n.1.1)

module _ {K V : Type 0} ⦃e : Eq K⦄ where
  -- The nodes stand between the two ends in this order, with these keys and values, and the map
  -- finds each by its key.
  pub record Holds (s : SortedList K V) (ns : Nodes K V) : Type 0 where
    pub ring : Ring s.heap s.head (ptrs ns) s.tail
    pub stored : All (Stored s.heap) ns
    pub keys : distinct_keys ns ≡ true
    pub mapped : (k : K) → lookup k s.map ≡ Option.map (λ n. n.0) (lookup k ns)
    pub map_keys : distinct_keys s.map ≡ true
    pub sized : length s.map ≡ length ns

  pub Stored-lookup :
      (h : Heap K V) (k : K) (p : Ptr) (v : V) (ns : Nodes K V)
      → All (Stored h) ns
      → lookup k ns ≡ some (p, v)
      → (h.key p ≡ some k) × (h.val p ≡ some v)
  unfolding lookup
  Stored-lookup h k p v [] a i = cc
  Stored-lookup h k p v ((j, n) ∷ ns) a i =
      ground (arith, e.beq_iff j k, Stored-lookup h k p v ns a.1)

  -- A write of a value at an address that is no node's.
  pub Stored-val :
      (h : Heap K V) (p : Ptr) (o : Option V) (ns : Nodes K V)
      → has p (ptrs ns) ≡ false
      → All (Stored h) ns
      → All (Stored (record h { val = update h.val p o })) ns
  Stored-val h p o [] out a = tt
  Stored-val h p o (n ∷ ns) out a =
      ((a.0.0, ground (arith, a.0.1)), Stored-val h p o ns (ground (arith, out)) a.1)

  pub Stored-box :
      (h : Heap K V) (k : Option K) (o : Option V) (ns : Nodes K V)
      → has h.fresh (ptrs ns) ≡ false
      → All (Stored h) ns
      → All (Stored (box h k o)) ns
  Stored-box h k o [] out a = tt
  Stored-box h k o (n ∷ ns) out a = (
    (ground (arith, a.0.0), ground (arith, a.0.1)),
    Stored-box h k o ns (ground (arith, out)) a.1,
  )

  module _ {s : SortedList K V} {ns : Nodes K V} (holds : Holds s ns) where
    abbrev ends : Ptr → List Ptr → Bool
    ends p l = has p (s.head ∷ l ++ s.tail ∷ [])

    pub Holds-has : (k : K) (p : Ptr) (v : V) → lookup k ns ≡ some (p, v) → has p (ptrs ns) ≡ true
    Holds-has k p v i = has-ptrs k p v ns i

    pub Holds-live : (k : K) (p : Ptr) (v : V) → lookup k ns ≡ some (p, v) → s.heap.live p ≡ true
    Holds-live k p v i =
        Ring-live holds.ring p
          (ground (arith, has-append p (ptrs ns) (s.tail ∷ []), Holds-has k p v i))

    Holds-below : (k : K) (p : Ptr) (v : V) → lookup k ns ≡ some (p, v) → p < s.heap.fresh
    Holds-below k p v i =
        Ring-below holds.ring p
          (ground (arith, has-append p (ptrs ns) (s.tail ∷ []), Holds-has k p v i))

    pub Holds-map : (k : K) (p : Ptr) (v : V) → lookup k ns ≡ some (p, v) → lookup k s.map ≡ some p
    Holds-map k p v i = ground (arith, holds.mapped k, i)

    distinct-ptrs : distinct (ptrs ns) ≡ true
    distinct-ptrs = distinct-prefix (ptrs ns) (s.tail ∷ []) (ground (arith, holds.ring.apart))

    pub Holds-erased :
        (k : K) (p : Ptr) (v : V)
        → lookup k ns ≡ some (p, v)
        → has p (s.head ∷ ptrs (erase k ns) ++ s.tail ∷ []) ≡ false
    Holds-erased k p v i =
        subst (λ l. has p (s.head ∷ l ++ s.tail ∷ []) ≡ false)
          (sym (ptrs-erase k p v ns i distinct-ptrs)) (erased-Ring holds.ring p (Holds-has k p v i))

    mapped-erase :
        (k : K) (p : Ptr) (v : V)
        → lookup k ns ≡ some (p, v)
        → (j : K) → lookup j (erase k s.map) ≡ Option.map (λ n. n.0) (lookup j (erase k ns))
    mapped-erase k p v i j = ground (
      arith,
      lookup-erase j k s.map holds.map_keys,
      lookup-erase j k ns holds.keys,
      holds.mapped j,
    )

    -- The node of a key is taken out of the list and of the map.
    pub Holds-take_node :
        (k : K) (p : Ptr) (v : V)
        → lookup k ns ≡ some (p, v)
        → (take_node s k p ≡ returns (record s { heap = unlink s.heap p; map = erase k s.map }))
          × Holds (record s { heap = unlink s.heap p; map = erase k s.map }) (erase k ns)
    unfolding take_node
    Holds-take_node k p v i = (
      rw (detach-Ring holds.ring p (Holds-has k p v i)) refl,
      record {
        ring =
            subst (λ l. Ring (unlink s.heap p) s.head l s.tail)
              (sym (ptrs-erase k p v ns i distinct-ptrs))
              (Ring-unlink holds.ring p (Holds-has k p v i));
        stored = All-erase (Stored s.heap) k ns holds.stored;
        keys = distinct_keys-erase k ns holds.keys;
        mapped = mapped-erase k p v i;
        map_keys = distinct_keys-erase k s.map holds.map_keys;
        sized = omega (
          arith,
          holds.sized,
          length-erase k (p, v) ns i,
          length-erase k p s.map (Holds-map k p v i),
        );
      },
    )

    pub Holds-drop_node :
        (p : Ptr) → has p (s.head ∷ ptrs ns ++ s.tail ∷ []) ≡ false → Holds (drop_node s p) ns
    Holds-drop_node p out = record {
      ring = Ring-free holds.ring p out;
      stored = holds.stored;
      keys = holds.keys;
      mapped = holds.mapped;
      map_keys = holds.map_keys;
      sized = holds.sized;
    }

    -- `to_front` moves the node of a key behind the head, whatever value is in it by then.
    abbrev pub moved : Ptr → Heap K V
    moved p = link (unlink s.heap p) s.head p

    moved-Ring :
        (k : K) (p : Ptr) (v : V)
        → lookup k ns ≡ some (p, v)
        → Ring (moved p) s.head (p ∷ ptrs (erase k ns)) s.tail
    moved-Ring k p v i =
        let taken = Holds-take_node k p v i in
        Ring-link taken.1.ring p (Holds-live k p v i) (Holds-below k p v i) (Holds-erased k p v i)

    to_front-moved :
        (f : Ptr → Option V) (k : K) (p : Ptr) (v : V)
        → lookup k ns ≡ some (p, v)
        → to_front (record s { heap = record s.heap { val = f } }) p
          ≡ returns (record s { heap = record (moved p) { val = f } })
    unfolding to_front
    to_front-moved f k p v i =
        let taken = Holds-take_node k p v i in
        let first = detach-Ring (Ring-val holds.ring f) p (Holds-has k p v i) in
        let then_ =
          attach-Ring (Ring-val taken.1.ring f) p (Holds-live k p v i) (Holds-erased k p v i) in
        rw (first, then_) refl

    mapped-front :
        (k : K) (p : Ptr) (v w : V)
        → lookup k ns ≡ some (p, v)
        → (j : K) → lookup j s.map ≡ Option.map (λ n. n.0) (lookup j ((k, (p, w)) ∷ erase k ns))
    unfolding lookup
    mapped-front k p v w i j =
        ground
          (arith, e.beq_iff k j, lookup-erase j k ns holds.keys, holds.mapped j, holds.mapped k)

    -- The item of a key is put in front, where its node has the value `w` by then.
    pub Holds-to_front :
        (f : Ptr → Option V) (k : K) (p : Ptr) (v w : V)
        → lookup k ns ≡ some (p, v)
        → f p ≡ some w
        → All (Stored (record s.heap { val = f })) (erase k ns)
        → (h : Heap K V) × (to_front (record s { heap = record s.heap { val = f } }) p
            ≡ returns (record s { heap = h }))
          × Holds (record s { heap = h }) ((k, (p, w)) ∷ erase k ns)
    Holds-to_front f k p v w i at_p rest = (
      record (moved p) { val = f },
      to_front-moved f k p v i,
      record {
        ring = Ring-val (moved-Ring k p v i) f;
        stored = (((Stored-lookup s.heap k p v ns holds.stored i).0, at_p), rest);
        keys = ground (
          arith,
          e.beq_iff k k,
          lookup-erase k k ns holds.keys,
          distinct_keys-erase k ns holds.keys,
        );
        mapped = λ j. mapped-front k p v w i j;
        map_keys = holds.map_keys;
        sized = omega (arith, holds.sized, length-erase k (p, v) ns i);
      },
    )

    -- The other nodes have their values still, when one is written.
    pub Stored-others :
        (k : K) (p : Ptr) (v w : V)
        → lookup k ns ≡ some (p, v)
        → All (Stored (record s.heap { val = update s.heap.val p (some w) })) (erase k ns)
    Stored-others k p v w i =
        Stored-val s.heap p (some w) (erase k ns)
          (ground (arith, Holds-erased k p v i, has-append p (ptrs (erase k ns)) (s.tail ∷ [])))
          (All-erase (Stored s.heap) k ns holds.stored)
