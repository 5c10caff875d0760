-- ===== src/SortedList/Last.antt =====
-- net/sorted_list.rs: the operations at the tail.
use minifto.Common.{
  ℕ, zero, suc, ◌<◌, ◌≡◌, refl, subst, ◌∙◌, true, false, none, some, [], ◌∷◌, length, arith,
  returns,
}
use minifto.SortedList.{
  Eq, Ptr, SortedList, erase, drop_node, remove_last, pop, drop_last, clear, last,
}
use minifto.SortedList.Ring.{unlink, Ring-prev, Ring-tail, Ring-apart}
use minifto.SortedList.Table.{Nodes, IsLast, find-IsLast, init, length-init}
use minifto.SortedList.Holds.{
  Holds, Stored-lookup, Holds-has, Holds-live, Holds-map, Holds-erased, Holds-take_node,
  Holds-drop_node,
}

module _ {K V : Type 0} ⦃e : Eq K⦄ where
  remove_last-none : (s : SortedList K V) → Holds s [] → remove_last s ≡ returns (s, none)
  unfolding remove_last
  remove_last-none s holds =
      let tail = Ring-tail holds.ring in
      let before = Ring-prev holds.ring in ground (arith, tail, before)

  module _ {s : SortedList K V} {ns : Nodes K V} {k : K} {p : Ptr} {v : V} (holds : Holds s ns)
      (l : IsLast ns k p v) where
    abbrev pub taken : SortedList K V
    taken = record s { heap = unlink s.heap p; map = erase k s.map }

    prev_tail : s.heap.prev s.tail ≡ p
    prev_tail = Ring-prev holds.ring ∙ l.address s.head

    live_last : s.heap.live p ≡ true
    live_last = Holds-live holds k p v l.found

    remove_last-some : remove_last s ≡ returns (taken, some p)
    unfolding remove_last
    remove_last-some =
        let tail = Ring-tail holds.ring in
        let apart = Ring-apart holds.ring p (Holds-has holds k p v l.found) in
        let key = (Stored-lookup s.heap k p v ns holds.stored l.found).0 in
        let here = Holds-map holds k p v l.found in
        let step = (Holds-take_node holds k p v l.found).0 in
        rw (tail, prev_tail, apart, live_last, key, here, step) refl

    pub dropped-Holds : Holds (drop_node taken p) (init ns)
    dropped-Holds = subst (Holds (drop_node taken p)) l.rest (
        Holds-drop_node (Holds-take_node holds k p v l.found).1 p
          (Holds-erased holds k p v l.found))

    pub pop-some : pop s ≡ returns (drop_node taken p, some (k, v))
    unfolding pop
    pop-some =
        let stored = Stored-lookup s.heap k p v ns holds.stored l.found in
        rw (remove_last-some, live_last, stored.0, stored.1) refl

    pub drop_last-some : drop_last s ≡ returns (drop_node taken p, true)
    unfolding drop_last
    drop_last-some = rw (remove_last-some) refl

    pub last-some : last s ≡ returns (some v)
    unfolding last
    last-some =
        let tail = Ring-tail holds.ring in
        let stored = Stored-lookup s.heap k p v ns holds.stored l.found in
        rw (tail, prev_tail, live_last, stored.1) refl

  pub pop-none : (s : SortedList K V) → Holds s [] → pop s ≡ returns (s, none)
  unfolding pop
  pop-none s holds = rw (remove_last-none s holds) refl

  pub drop_last-none : (s : SortedList K V) → Holds s [] → drop_last s ≡ returns (s, false)
  unfolding drop_last
  drop_last-none s holds = rw (remove_last-none s holds) refl

  pub clear-Holds :
      (fuel : ℕ) (s : SortedList K V) (ns : Nodes K V)
      → Holds s ns
      → length ns < fuel
      → (s' : SortedList K V) × (clear fuel s ≡ returns (some s')) × Holds s' []
  unfolding clear
  clear-Holds (suc fuel) s [] holds enough = (s, rw (drop_last-none s holds) refl, holds)
  clear-Holds (suc fuel) s (n ∷ ns) holds enough =
      let (k, p, v, l) = find-IsLast n ns holds.keys in
      let (s', run, empty) =
        clear-Holds fuel (drop_node (taken holds l) p) (init (n ∷ ns)) (dropped-Holds holds l)
          (omega (arith, length-init n ns)) in
      (s', rw (drop_last-some holds l) run, empty)
  clear-Holds zero s ns holds enough = absurd (omega arith)
