-- ===== src/SortedList/Drop.antt =====
-- net/sorted_list.rs: the `Drop` of a list frees what the list has, each of it once.
use minifto.Common.{
  ◌≡◌, refl, sym, ap, subst, ◌∙◌, Bool, true, false, Option, none, some, List, [], ◌∷◌, ◌++◌, ◌==◌,
  if◌then◌else◌, All, Bool-cases, Option-cases, inl, inr, arith, returns,
}
use minifto.SortedList.{Eq, Ptr, Heap, SortedList, lookup, free, free_all, boxes, drop}
use minifto.SortedList.Addresses.{has, distinct, has-append, has-ne, All-live}
use minifto.SortedList.Ring.{Ring-live, Ring-tail}
use minifto.SortedList.Table.{Nodes, ptrs, has-ptrs, distinct_keys}
use minifto.SortedList.Holds.{Holds, Stored-lookup}
use minifto.SortedList.Lists.{Lists}
use mathlib.Core.Option

All-imp : {A : Type 0} (P Q : A → Type 0) (l : List A) → ((x : A) → P x → Q x) → All P l → All Q l
All-imp P Q [] f a = tt
All-imp P Q (x ∷ l) f a = (f x a.0, All-imp P Q l f a.1)

-- The last of addresses that are apart is not among the others.
last-out : (z : Ptr) (l : List Ptr) → distinct (l ++ z ∷ []) ≡ true → has z l ≡ false
last-out z [] d = refl
last-out z (x ∷ l) d =
    let rest = last-out z l (ground (arith, d)) in
    let split = has-append x l (z ∷ []) in ground (arith, d, rest, split)

module _ {K V : Type 0} where
  -- Boxes that are live and apart are freed, and nothing else.
  free_all-lem :
      (h : Heap K V) (ps : List Ptr)
      → All (λ q. h.live q ≡ true) ps
      → distinct ps ≡ true
      → (h' : Heap K V) × (free_all h ps ≡ returns h')
        × ((q : Ptr) → h'.live q ≡ (if has q ps then false else h.live q))
  unfolding free_all
  free_all-lem h [] a d = (h, refl, λ q. refl)
  free_all-lem h (p ∷ ps) a d =
      let out : has p ps ≡ false = ground (arith, d) in
      let (h', run, live) =
        free_all-lem (free h p) ps (All-live h.live p ps out a.1) (ground (arith, d)) in
      (h', rw (a.0) run, λ q. live q ∙ ground arith)

module _ {K : Type 0} where
  -- The boxes of the map are those of other nodes than `a`.
  boxes-out :
      (a : Ptr) (l : List Ptr) (m : List (K × Ptr))
      → has a l ≡ false
      → All (λ n. has n.1 l ≡ true) m
      → has a (boxes m) ≡ false
  boxes-out a l [] out i = refl
  boxes-out a l ((k, p) ∷ m) out i =
      let other = has-ne a p l out i.0 in
      let rest = boxes-out a l m out i.1 in ground (arith, other, rest)

  boxes-live :
      (live : Ptr → Bool) (m : List (K × Ptr))
      → All (λ n. live n.1 ≡ true) m
      → All (λ q. live q ≡ true) (boxes m)
  boxes-live live [] a = tt
  boxes-live live ((k, p) ∷ m) a = (a.0, boxes-live live m a.1)

module _ {K : Type 0} ⦃e : Eq K⦄ where
  -- Where the keys are apart, the map finds each of its entries.
  entries-found :
      (m : List (K × Ptr)) → distinct_keys m ≡ true → All (λ n. lookup n.0 m ≡ some n.1) m
  unfolding lookup
  entries-found [] d = tt
  entries-found ((k, p) ∷ m) d = (
    ground (arith, e.beq_iff k k),
    All-imp _ _ m (λ n found. ground (arith, d, found, e.beq_iff k n.0))
        (entries-found m (ground (arith, d))),
  )

  -- A box holds one key, so no two entries have the same box.
  box-once :
      (key : Ptr → Option K) (k : K) (p : Ptr) (m : List (K × Ptr))
      → key p ≡ some k
      → lookup k m ≡ none
      → All (λ n. key n.1 ≡ some n.0) m
      → has p (boxes m) ≡ false
  unfolding lookup
  box-once key k p [] held out a = refl
  box-once key k p ((j, q) ∷ m) held out a = elim (Bool-cases (p == q)) [
    | inl same ↦
        let equal : p ≡ q = ground (arith, same) in
        let keys : some j ≡ some k = sym a.0 ∙ (ap key (sym equal) ∙ held) in
        ground (arith, keys, out, e.beq_iff j k)
    | inr other ↦
        let rest = box-once key k p m held (ground (arith, out)) a.1 in ground (arith, other, rest)
  ]

  boxes-apart :
      (key : Ptr → Option K) (m : List (K × Ptr))
      → distinct_keys m ≡ true
      → All (λ n. key n.1 ≡ some n.0) m
      → distinct (boxes m) ≡ true
  boxes-apart key [] d a = refl
  boxes-apart key ((k, p) ∷ m) d a =
      let rest = boxes-apart key m (ground (arith, d)) a.1 in
      let once = box-once key k p m a.0 (ground (arith, d)) a.1 in ground (arith, rest, once)

module _ {K V : Type 0} ⦃e : Eq K⦄ where
  -- What a list has: its two ends, and the boxes of its map.
  abbrev pub owned : SortedList K V → List Ptr
  owned s = s.head ∷ s.tail ∷ boxes s.map

  module _ (s : SortedList K V) (ns : Nodes K V) (holds : Holds s ns) where
    -- A box of the map is the node of an item, and holds its key.
    box-Holds :
        (n : K × Ptr)
        → lookup n.0 s.map ≡ some n.1
        → (has n.1 (ptrs ns) ≡ true) × (s.heap.key n.1 ≡ some n.0)
    box-Holds (k, p) found =
        let listed : some p ≡ Option.map (λ n. n.0) (lookup k ns) = sym found ∙ holds.mapped k in
        elim (Option-cases (lookup k ns)) [
          | inl none_there ↦
              let bad : some p ≡ none = listed ∙ ap (Option.map (λ n. n.0)) none_there in
              absurd (cc bad)
          | inr (node, there) ↦
              let same : some p ≡ some node.0 = listed ∙ ap (Option.map (λ n. n.0)) there in
              let here : node.0 ≡ p = ground (arith, same) in
              subst (λ a. (has a (ptrs ns) ≡ true) × (s.heap.key a ≡ some k)) here
                (
                  has-ptrs k node.0 node.1 ns there,
                  (Stored-lookup s.heap k node.0 node.1 ns holds.stored there).0,
                )
        ]

    ends-out :
        (has s.head (ptrs ns) ≡ false)
        × ((s.head == s.tail) ≡ false)
        × (has s.tail (ptrs ns) ≡ false)
    ends-out =
        let split = has-append s.head (ptrs ns) (s.tail ∷ []) in
        (
          ground (arith, holds.ring.apart, split),
          ground (arith, holds.ring.apart, split),
          last-out s.tail (ptrs ns) (ground (arith, holds.ring.apart)),
        )

    box-live : (n : K × Ptr) → has n.1 (ptrs ns) ≡ true → s.heap.live n.1 ≡ true
    box-live n i =
        Ring-live holds.ring n.1 (ground (arith, i, has-append n.1 (ptrs ns) (s.tail ∷ [])))

    owned-live : All (λ q. s.heap.live q ≡ true) (owned s)
    owned-live = (
      holds.ring.alive.0,
      (
        Ring-tail holds.ring,
        boxes-live s.heap.live s.map (
            All-imp _ _ s.map (λ n found. box-live n (box-Holds n found).0)
              (entries-found s.map holds.map_keys)),
      ),
    )

    owned-apart : distinct (owned s) ≡ true
    owned-apart =
        let found = entries-found s.map holds.map_keys in
        let (head_out, ne, tail_out) = ends-out in
        let among : All (λ n. has n.1 (ptrs ns) ≡ true) s.map =
          All-imp _ _ s.map (λ n f. (box-Holds n f).0) found in
        let apart =
          boxes-apart s.heap.key s.map holds.map_keys
            (All-imp _ _ s.map (λ n f. (box-Holds n f).1) found) in
        let no_head = boxes-out s.head (ptrs ns) s.map head_out among in
        let no_tail = boxes-out s.tail (ptrs ns) s.map tail_out among in
        ground (arith, ne, apart, no_head, no_tail)

  -- The `Drop` of a list that holds any items returns, so no box is dropped twice and none that
  -- was freed before; its two ends and the boxes of its map are freed then, and nothing else.
  pub drop-Lists :
      (s : SortedList K V) (l : List (K × V))
      → Lists s l
      → (h : Heap K V) × (drop s ≡ returns h)
        × ((q : Ptr) → h.live q ≡ (if has q (owned s) then false else s.heap.live q))
  unfolding drop
  drop-Lists s l lists =
      free_all-lem s.heap (owned s) (owned-live s lists.nodes lists.holds)
        (owned-apart s lists.nodes lists.holds)
