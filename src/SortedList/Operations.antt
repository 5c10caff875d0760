-- ===== src/SortedList/Operations.antt =====
-- net/sorted_list.rs: the operations, against a list of items with the most recently used first.
use minifto.Common.{
  suc, ◌≡◌, refl, sym, ap, subst, true, Option, none, some, [], ◌∷◌, Option-cases, inl, inr, arith,
  returns,
}
use minifto.SortedList.{
  Eq, Ptr, Heap, SortedList, update, box, lookup, erase, put, get, remove, put_at, put_new,
  drop_node,
}
use minifto.SortedList.Addresses.{has-append}
use minifto.SortedList.Ring.{link, unlink, Ring-fresh, Ring-box, Ring-link, attach-Ring}
use minifto.SortedList.Table.{
  Nodes, ptrs, items, lookup-items, distinct_keys, distinct_keys-cons, erase_of_none,
}
use minifto.SortedList.Holds.{
  Holds, Stored-box, Stored-lookup, Stored-others, Holds-live, Holds-map, Holds-erased,
  Holds-take_node, Holds-drop_node, Holds-to_front,
}

module _ {K V : Type 0} ⦃e : Eq K⦄ where
  pub absent : (k : K) (ns : Nodes K V) → lookup k (items ns) ≡ none → lookup k ns ≡ none
  absent k ns h = ground (arith, lookup-items k ns)

  pub present :
      (k : K) (v : V) (ns : Nodes K V)
      → lookup k (items ns) ≡ some v
      → (p : Ptr) × (lookup k ns ≡ some (p, v))
  present k v ns h = elim (Option-cases (lookup k ns)) [
    | inl i ↦ absurd (ground (arith, lookup-items k ns))
    | inr i ↦ (i.0.0, ground (arith, lookup-items k ns, i.1))
  ]

  module _ (s : SortedList K V) (ns : Nodes K V) (holds : Holds s ns) (k : K) where
    pub remove-some :
        (p : Ptr) (v : V)
        → lookup k ns ≡ some (p, v)
        → (s' : SortedList K V) × (remove s k ≡ returns (s', some v)) × Holds s' (erase k ns)
    unfolding remove
    remove-some p v i =
        let (taken, after) = Holds-take_node holds k p v i in
        let here = Holds-map holds k p v i in
        let live = Holds-live holds k p v i in
        let val = (Stored-lookup s.heap k p v ns holds.stored i).1 in
        let s1 : SortedList K V = record s { heap = unlink s.heap p; map = erase k s.map } in
        (
          drop_node s1 p,
          rw (here, remove, taken, live, val) refl,
          Holds-drop_node after p (Holds-erased holds k p v i),
        )

    pub remove-none : lookup k ns ≡ none → remove s k ≡ returns (s, none)
    unfolding remove
    remove-none i =
        let here : lookup k s.map ≡ none = ground (arith, holds.mapped k, i) in
        rw (here, remove) refl

    pub get-some :
        (p : Ptr) (v : V)
        → lookup k ns ≡ some (p, v)
        → (s' : SortedList K V) × (get s k ≡ returns (s', some (p, v)))
          × Holds s' ((k, (p, v)) ∷ erase k ns)
    unfolding get
    get-some p v i =
        let here = Holds-map holds k p v i in
        let live = Holds-live holds k p v i in
        let val = (Stored-lookup s.heap k p v ns holds.stored i).1 in
        let (h, run, after) =
          Holds-to_front holds s.heap.val k p v v i val (Holds-take_node holds k p v i).1.stored in
        (record s { heap = h }, rw (here, get, live, val, run) refl, after)

    pub get-none : lookup k ns ≡ none → get s k ≡ returns (s, none)
    unfolding get
    get-none i =
        let here : lookup k s.map ≡ none = ground (arith, holds.mapped k, i) in rw (here, get) refl

    pub put-some :
        (p : Ptr) (v w : V)
        → lookup k ns ≡ some (p, v)
        → (s' : SortedList K V) × (put s k w ≡ returns (s', some v))
          × Holds s' ((k, (p, w)) ∷ erase k ns)
    unfolding put put_at
    put-some p v w i =
        let here = Holds-map holds k p v i in
        let live = Holds-live holds k p v i in
        let val = (Stored-lookup s.heap k p v ns holds.stored i).1 in
        let f : Ptr → Option V = update s.heap.val p (some w) in
        let (h, run, after) =
          Holds-to_front holds f k p v w i (ground arith) (Stored-others holds k p v w i) in
        (record s { heap = h }, rw (here, put, live, val, run) refl, after)

    pub put-none :
        (w : V)
        → lookup k ns ≡ none
        → (s' : SortedList K V) × (put s k w ≡ returns (s', none))
          × Holds s' ((k, (s.heap.fresh, w)) ∷ ns)
    unfolding put put_new lookup
    put-none w i =
        let here : lookup k s.map ≡ none = ground (arith, holds.mapped k, i) in
        let h : Heap K V = box s.heap (some k) (some w) in
        let out = Ring-fresh holds.ring in
        let ring = Ring-box holds.ring (some k) (some w) in
        let run = attach-Ring ring s.heap.fresh (ground arith) out in
        (
          record s { heap = link h s.head s.heap.fresh; map = (k, s.heap.fresh) ∷ erase k s.map },
          rw (here, put, run) refl,
          record {
            ring = Ring-link ring s.heap.fresh (ground arith) (omega arith) out;
            stored = (
              (ground arith, ground arith),
              Stored-box s.heap (some k) (some w) ns
                  (ground (arith, out, has-append s.heap.fresh (ptrs ns) (s.tail ∷ [])))
                  holds.stored,
            );
            keys = ground (arith, i, holds.keys);
            mapped = λ j. rw (erase_of_none k s.map here) (ground (arith, holds.mapped j));
            map_keys =
                subst (λ m. distinct_keys ((k, s.heap.fresh) ∷ m) ≡ true)
                  (sym (erase_of_none k s.map here))
                  (distinct_keys-cons k s.heap.fresh s.map here holds.map_keys);
            sized = rw (erase_of_none k s.map here) (ap suc holds.sized);
          },
        )
