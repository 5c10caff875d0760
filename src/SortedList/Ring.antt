-- ===== src/SortedList/Ring.antt =====
-- net/sorted_list.rs: the nodes between the two ends of a doubly linked list.
use minifto.Common.{◌<◌, ◌≡◌, true, false, List, [], ◌∷◌, ◌++◌, ◌==◌, Option, All, arith, returns}
use minifto.SortedList.{Ptr, Heap, update, box, free, detach, attach}
use minifto.SortedList.Addresses.{
  has, distinct, erase_ptr, has-append, All-has, All-erase_ptr, has-ne, erased,
  distinct-erase_ptr_from, All-live, All-live_true, All-below_suc, has_of_below,
}
use minifto.SortedList.Links.{
  Linked, Linked-next, Linked-prev, has-prev, has-next, unlink-Linked, link-between, has-first,
  first_of, next-first_of, last_of, prev-last_of,
}

module _ {K V : Type 0} where
  -- The nodes between two ends, in order.
  pub record Ring (h : Heap K V) (x : Ptr) (l : List Ptr) (z : Ptr) : Type 0 where
    pub linked : Linked h.next h.prev (x ∷ l ++ z ∷ [])
    pub apart : distinct (x ∷ l ++ z ∷ []) ≡ true
    pub alive : All (λ p. h.live p ≡ true) (x ∷ l ++ z ∷ [])
    pub below : All (λ p. p < h.fresh) (x ∷ l ++ z ∷ [])

  abbrev pub unlink : Heap K V → Ptr → Heap K V
  unlink h a = record h {
    next = update h.next (h.prev a) (h.next a);
    prev = update h.prev (h.next a) (h.prev a);
  }

  abbrev pub link : Heap K V → Ptr → Ptr → Heap K V
  link h x a = record h {
    next = update (update h.next a (h.next x)) x a;
    prev = update (update h.prev a x) (h.next x) a;
  }

  module _ {h : Heap K V} {x z : Ptr} {l : List Ptr} (ring : Ring h x l z) where
    pub Ring-live : (a : Ptr) → has a (x ∷ l ++ z ∷ []) ≡ true → h.live a ≡ true
    Ring-live a i = All-has (λ p. h.live p ≡ true) a (x ∷ l ++ z ∷ []) ring.alive i

    pub Ring-below : (a : Ptr) → has a (x ∷ l ++ z ∷ []) ≡ true → a < h.fresh
    Ring-below a i = All-has (λ p. p < h.fresh) a (x ∷ l ++ z ∷ []) ring.below i

    pub Ring-tail : h.live z ≡ true
    Ring-tail = Ring-live z (ground (arith, has-append z l (z ∷ [])))

    pub Ring-prev : h.prev z ≡ last_of x l
    Ring-prev = prev-last_of h.next h.prev x z l ring.linked

    pub Ring-next : h.next x ≡ first_of l z
    Ring-next = next-first_of h.next h.prev x z l ring.linked

    pub Ring-fresh : has h.fresh (x ∷ l ++ z ∷ []) ≡ false
    Ring-fresh = has_of_below h.fresh (x ∷ l ++ z ∷ []) ring.below

    pub Ring-unlink : (a : Ptr) → has a l ≡ true → Ring (unlink h a) x (erase_ptr a l) z
    Ring-unlink a i = record {
      linked = unlink-Linked h.next h.prev x a z l ring.apart i ring.linked;
      apart = distinct-erase_ptr_from x a l (z ∷ []) ring.apart;
      alive = (ring.alive.0, All-erase_ptr (λ p. h.live p ≡ true) a l (z ∷ []) ring.alive.1);
      below = (ring.below.0, All-erase_ptr (λ p. p < h.fresh) a l (z ∷ []) ring.below.1);
    }

    pub detach-Ring : (a : Ptr) → has a l ≡ true → detach h a ≡ returns (unlink h a)
    unfolding detach
    detach-Ring a i =
        let here : h.live a ≡ true = Ring-live a (ground (arith, has-append a l (z ∷ []))) in
        let before : h.live (h.prev a) ≡ true = Ring-live (h.prev a) (
          ground (
            arith,
            has-prev h.next h.prev x a z l i ring.linked,
            has-append (h.prev a) (x ∷ l) (z ∷ []),
          )) in
        let after : h.live (h.next a) ≡ true =
          Ring-live (h.next a) (ground (arith, has-next h.next h.prev x a z l i ring.linked)) in
        ground (arith, here, before, after)

    pub erased-Ring : (a : Ptr) → has a l ≡ true → has a (x ∷ erase_ptr a l ++ z ∷ []) ≡ false
    erased-Ring a i =
        let inside = has-ne x a l (ground (arith, ring.apart, has-append x l (z ∷ []))) i in
        ground (arith, inside, erased a l (z ∷ []) (ground (arith, ring.apart)) i)

    pub Ring-apart : (a : Ptr) → has a l ≡ true → (a == x) ≡ false
    Ring-apart a i = has-ne x a l (ground (arith, ring.apart, has-append x l (z ∷ []))) i

    pub attach-Ring :
        (a : Ptr)
        → h.live a ≡ true
        → has a (x ∷ l ++ z ∷ []) ≡ false
        → attach h x a ≡ returns (link h x a)
    unfolding attach
    attach-Ring a here out =
        let head : h.live x ≡ true = ring.alive.0 in
        let first : h.live (h.next x) ≡ true =
          Ring-live (h.next x) (ground (arith, has-first h.next h.prev x z l ring.linked)) in
        let other : (x == a) ≡ false = ground (arith, out) in
        ground (arith, here, head, first, other)

    pub Ring-link :
        (a : Ptr)
        → h.live a ≡ true
        → a < h.fresh
        → has a (x ∷ l ++ z ∷ []) ≡ false
        → Ring (link h x a) x (a ∷ l) z
    Ring-link a here low out = record {
      linked = link-between h.next h.prev x a z l ring.apart out ring.linked;
      apart = ground (arith, ring.apart, out);
      alive = (ring.alive.0, (here, ring.alive.1));
      below = (ring.below.0, (low, ring.below.1));
    }

    pub Ring-free : (a : Ptr) → has a (x ∷ l ++ z ∷ []) ≡ false → Ring (free h a) x l z
    Ring-free a out = record {
      linked = ring.linked;
      apart = ring.apart;
      alive = All-live h.live a (x ∷ l ++ z ∷ []) out ring.alive;
      below = ring.below;
    }

    -- The values have no part in it.
    pub Ring-val : (f : Ptr → Option V) → Ring (record h { val = f }) x l z
    Ring-val f = record {
      linked = ring.linked;
      apart = ring.apart;
      alive = ring.alive;
      below = ring.below;
    }

    -- A new box is outside.
    pub Ring-box : (k : Option K) (v : Option V) → Ring (box h k v) x l z
    Ring-box k v =
        let out = Ring-fresh in
        record {
          linked =
              Linked-prev (update h.next h.fresh 0) h.prev h.fresh 0 x (l ++ z ∷ [])
                (ground (arith, out))
                (Linked-next h.next h.prev h.fresh 0 x (l ++ z ∷ []) out ring.linked);
          apart = ring.apart;
          alive = All-live_true h.live h.fresh (x ∷ l ++ z ∷ []) ring.alive;
          below = All-below_suc h.fresh (x ∷ l ++ z ∷ []) ring.below;
        }
