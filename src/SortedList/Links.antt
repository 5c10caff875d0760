-- ===== src/SortedList/Links.antt =====
-- net/sorted_list.rs: nodes that point to each other, and the writes of `detach` and `attach`.
use minifto.Common.{
  ◌≡◌, sym, subst, true, false, List, [], ◌∷◌, ◌++◌, ◌==◌, Bool-cases, inl, inr, arith,
}
use minifto.SortedList.{Ptr, update}
use minifto.SortedList.Addresses.{has, distinct, erase_ptr, has-append, has-ne}

-- Each address of the list is followed by the next, both ways.
abbrev pub Linked : (next prev : Ptr → Ptr) → List Ptr → Type 0
Linked next prev [] = Unit
Linked next prev (x ∷ []) = Unit
Linked next prev (x ∷ y ∷ l) = (next x ≡ y) × (prev y ≡ x) × Linked next prev (y ∷ l)

pub Linked-next :
    (next prev : Ptr → Ptr) (b q x : Ptr) (l : List Ptr)
    → has b (x ∷ l) ≡ false
    → Linked next prev (x ∷ l)
    → Linked (update next b q) prev (x ∷ l)
Linked-next next prev b q x [] out h = tt
Linked-next next prev b q x (y ∷ l) out h =
    (ground arith, h.1, Linked-next next prev b q y l (ground arith) h.2)

pub Linked-prev :
    (next prev : Ptr → Ptr) (b q x : Ptr) (l : List Ptr)
    → has b l ≡ false
    → Linked next prev (x ∷ l)
    → Linked next (update prev b q) (x ∷ l)
Linked-prev next prev b q x [] out h = tt
Linked-prev next prev b q x (y ∷ l) out h =
    (h.0, ground arith, Linked-prev next prev b q y l (ground arith) h.2)

module _ (next prev : Ptr → Ptr) where
  -- The neighbours of a node between the ends are in the list.
  pub has-prev :
      (x a z : Ptr) (l : List Ptr)
      → has a l ≡ true
      → Linked next prev (x ∷ l ++ z ∷ [])
      → has (prev a) (x ∷ l) ≡ true
  has-prev x a z [] i h = cc
  has-prev x a z (y ∷ l) i h = elim (Bool-cases (a == y)) [
    | inl e ↦ ground arith
    | inr e ↦ ground (arith, has-prev y a z l (ground arith) h.2)
  ]

  pub has-next :
      (x a z : Ptr) (l : List Ptr)
      → has a l ≡ true
      → Linked next prev (x ∷ l ++ z ∷ [])
      → has (next a) (l ++ z ∷ []) ≡ true
  has-next x a z [] i h = cc
  has-next x a z (y ∷ []) i h = ground arith
  has-next x a z (y ∷ w ∷ l) i h = elim (Bool-cases (a == y)) [
    | inl e ↦ ground arith
    | inr e ↦ ground (arith, has-next y a z (w ∷ l) (ground arith) h.2)
  ]

  pub skip-Linked :
      (x a w : Ptr) (r : List Ptr)
      → distinct (x ∷ a ∷ w ∷ r) ≡ true
      → Linked next prev (x ∷ a ∷ w ∷ r)
      → Linked (update next (prev a) (next a)) (update prev (next a) (prev a)) (x ∷ w ∷ r)
  skip-Linked x a w r d h =
      let before : has (prev a) (w ∷ r) ≡ false =
        subst (λ b. has b (w ∷ r) ≡ false) (sym h.1) (ground (arith, d)) in
      let after : has (next a) r ≡ false =
        subst (λ b. has b r ≡ false) (sym h.2.0) (ground (arith, d)) in
      (
        ground arith,
        ground arith,
        Linked-prev (update next (prev a) (next a)) prev (next a) (prev a) w r after
            (Linked-next next prev (prev a) (next a) w r before h.2.2),
      )

  pub first :
      (x a z : Ptr) (l : List Ptr)
      → distinct (x ∷ a ∷ l ++ z ∷ []) ≡ true
      → Linked next prev (x ∷ a ∷ l ++ z ∷ [])
      → Linked (update next (prev a) (next a)) (update prev (next a) (prev a)) (x ∷ l ++ z ∷ [])
  first x a z [] d h = skip-Linked x a z [] d h
  first x a z (w ∷ l) d h = skip-Linked x a w (l ++ z ∷ []) d h

  pub unlink-Linked :
      (x a z : Ptr) (l : List Ptr)
      → distinct (x ∷ l ++ z ∷ []) ≡ true
      → has a l ≡ true
      → Linked next prev (x ∷ l ++ z ∷ [])
      → Linked
          (update next (prev a) (next a))
          (update prev (next a) (prev a))
          (x ∷ erase_ptr a l ++ z ∷ [])
  unlink-Linked x a z [] d i h = cc
  unlink-Linked x a z (y ∷ l) d i h = elim (Bool-cases (a == y)) [
    | inl e ↦ rw (e) (
        let same : y ≡ a = ground arith in
        first x a z l (subst (λ b. distinct (x ∷ b ∷ l ++ z ∷ []) ≡ true) same d)
          (subst (λ b. Linked next prev (x ∷ b ∷ l ++ z ∷ [])) same h))
    | inr e ↦
        let before = has-prev y a z l (ground arith) h.2 in
        let after = has-next y a z l (ground arith) h.2 in
        let apart : distinct (y ∷ l ++ z ∷ []) ≡ true = ground (arith, d) in
        let x_out : has x (y ∷ l) ≡ false = ground (arith, d, has-append x l (z ∷ [])) in
        let y_out : has y (l ++ z ∷ []) ≡ false = ground (arith, d) in
        rw (e) (
          ground (arith, has-ne x (prev a) (y ∷ l) x_out before),
          ground (arith, has-ne y (next a) (l ++ z ∷ []) y_out after),
          unlink-Linked y a z l apart (ground arith) h.2,
        )
  ]

  -- A node that is not in the list is put behind its first address.
  pub link-Linked :
      (x a w : Ptr) (r : List Ptr)
      → distinct (x ∷ w ∷ r) ≡ true
      → has a (x ∷ w ∷ r) ≡ false
      → Linked next prev (x ∷ w ∷ r)
      → Linked
          (update (update next a (next x)) x a)
          (update (update prev a x) (next x) a)
          (x ∷ a ∷ w ∷ r)
  link-Linked x a w r d out h =
      let after : has (next x) r ≡ false =
        subst (λ b. has b r ≡ false) (sym h.0) (ground (arith, d)) in
      let next' : Ptr → Ptr = update next a (next x) in
      (
        ground arith,
        ground arith,
        (
          ground arith,
          ground arith,
          Linked-prev (update next' x a) (update prev a x) (next x) a w r after (
              Linked-prev (update next' x a) prev a x w r (ground (arith, out)) (
                Linked-next next' prev x a w r (ground (arith, d))
                  (Linked-next next prev a (next x) w r (ground (arith, out)) h.2))),
        ),
      )

  pub link-between :
      (x a z : Ptr) (l : List Ptr)
      → distinct (x ∷ l ++ z ∷ []) ≡ true
      → has a (x ∷ l ++ z ∷ []) ≡ false
      → Linked next prev (x ∷ l ++ z ∷ [])
      → Linked
          (update (update next a (next x)) x a)
          (update (update prev a x) (next x) a)
          (x ∷ a ∷ l ++ z ∷ [])
  link-between x a z [] = link-Linked x a z []
  link-between x a z (w ∷ l) = link-Linked x a w (l ++ z ∷ [])

  pub has-first :
      (x z : Ptr) (l : List Ptr)
      → Linked next prev (x ∷ l ++ z ∷ [])
      → has (next x) (l ++ z ∷ []) ≡ true
  has-first x z [] h = ground arith
  has-first x z (w ∷ l) h = ground arith

abbrev pub first_of : List Ptr → Ptr → Ptr
first_of [] z = z
first_of (y ∷ l) z = y

pub next-first_of :
    (next prev : Ptr → Ptr) (x z : Ptr) (l : List Ptr)
    → Linked next prev (x ∷ l ++ z ∷ [])
    → next x ≡ first_of l z
next-first_of next prev x z [] h = h.0
next-first_of next prev x z (y ∷ l) h = h.0

-- The last address of a list, or the one before the list.
abbrev pub last_of : Ptr → List Ptr → Ptr
last_of x [] = x
last_of x (y ∷ l) = last_of y l

pub prev-last_of :
    (next prev : Ptr → Ptr) (x z : Ptr) (l : List Ptr)
    → Linked next prev (x ∷ l ++ z ∷ [])
    → prev z ≡ last_of x l
prev-last_of next prev x z [] h = h.1
prev-last_of next prev x z (y ∷ l) h = prev-last_of next prev y z l h.2

pub has-last_of : (x : Ptr) (l : List Ptr) → has (last_of x l) (x ∷ l) ≡ true
has-last_of x [] = ground arith
has-last_of x (y ∷ l) = ground (arith, has-last_of y l)
