-- ===== src/SortedList/Table.antt =====
-- net/sorted_list.rs: laws of the map, for distinct keys.
use minifto.Common.{
  suc, ◌≡◌, refl, ap, Bool, true, not, ◌&&◌, none, some, Option, List, [], ◌∷◌, ◌++◌, if◌then◌else◌,
  length, is_some, All, Bool-cases, inl, inr, arith,
}
use minifto.SortedList.{Eq, Ptr, lookup, erase}
use minifto.SortedList.Addresses.{has, distinct, erase_ptr}
use minifto.SortedList.Links.{last_of}
use mathlib.Core.Option

module _ {K A : Type 0} ⦃e : Eq K⦄ where
  abbrev pub distinct_keys : List (K × A) → Bool
  distinct_keys [] = true
  distinct_keys ((k, a) ∷ m) = not (is_some (lookup k m)) && distinct_keys m

  pub lookup-erase :
      (j k : K) (m : List (K × A))
      → distinct_keys m ≡ true
      → lookup j (erase k m) ≡ (if e.beq k j then none else lookup j m)
  unfolding lookup erase
  lookup-erase j k [] d = ground arith
  lookup-erase j k ((i, a) ∷ m) d =
      ground (arith, e.beq_iff i k, e.beq_iff k j, e.beq_iff i j, lookup-erase j k m)

  pub distinct_keys-erase :
      (k : K) (m : List (K × A)) → distinct_keys m ≡ true → distinct_keys (erase k m) ≡ true
  unfolding lookup erase
  distinct_keys-erase k [] d = refl
  distinct_keys-erase k ((i, a) ∷ m) d = ground (arith, distinct_keys-erase k m, lookup-erase i k m)

  pub distinct_keys-cons :
      (k : K) (a : A) (m : List (K × A))
      → lookup k m ≡ none
      → distinct_keys m ≡ true
      → distinct_keys ((k, a) ∷ m) ≡ true
  distinct_keys-cons k a m h d = ground arith

  pub length-erase :
      (k : K) (a : A) (m : List (K × A)) → lookup k m ≡ some a → suc (length (erase k m)) ≡ length m
  unfolding lookup erase
  length-erase k a [] h = cc
  length-erase k a ((i, b) ∷ m) h = ground (arith, length-erase k a m)

  pub erase_of_none : (k : K) (m : List (K × A)) → lookup k m ≡ none → erase k m ≡ m
  unfolding lookup erase
  erase_of_none k [] h = refl
  erase_of_none k ((i, b) ∷ m) h = ground (arith, erase_of_none k m)

-- The last item of a list, and the others.
module _ {A : Type 0} where
  abbrev pub last_item : List A → Option A
  last_item [] = none
  last_item (x ∷ []) = some x
  last_item (x ∷ y ∷ l) = last_item (y ∷ l)

  abbrev pub init : List A → List A
  init [] = []
  init (x ∷ []) = []
  init (x ∷ y ∷ l) = x ∷ init (y ∷ l)

  pub init-last_item : (x : A) (l : List A) → last_item l ≡ some x → l ≡ init l ++ x ∷ []
  init-last_item x [] h = cc
  init-last_item x (y ∷ []) h = ground (arith, h)
  init-last_item x (y ∷ z ∷ l) h = ap (λ (m : List A). y ∷ m) (init-last_item x (z ∷ l) h)

  pub length-init : (x : A) (l : List A) → length (init (x ∷ l)) ≡ length l
  length-init x [] = refl
  length-init x (y ∷ l) = ap suc (length-init y l)

-- The nodes of a list: each key with its address and its value.
abbrev pub Nodes : Type 0 → Type 0 → Type 0
Nodes K V = List (K × (Ptr × V))

module _ {K V : Type 0} where
  abbrev pub ptrs : Nodes K V → List Ptr
  ptrs [] = []
  ptrs (n ∷ ns) = n.1.0 ∷ ptrs ns

  abbrev pub items : Nodes K V → List (K × V)
  items [] = []
  items (n ∷ ns) = (n.0, n.1.1) ∷ items ns

module _ {K V : Type 0} ⦃e : Eq K⦄ where
  pub lookup-items :
      (k : K) (ns : Nodes K V) → lookup k (items ns) ≡ Option.map (λ n. n.1) (lookup k ns)
  unfolding lookup
  lookup-items k [] = refl
  lookup-items k ((i, n) ∷ ns) = ground (arith, lookup-items k ns)

  pub items-erase : (k : K) (ns : Nodes K V) → items (erase k ns) ≡ erase k (items ns)
  unfolding erase
  items-erase k [] = refl
  items-erase k ((i, n) ∷ ns) = ground (arith, items-erase k ns)

  pub has-ptrs :
      (k : K) (p : Ptr) (v : V) (ns : Nodes K V)
      → lookup k ns ≡ some (p, v)
      → has p (ptrs ns) ≡ true
  unfolding lookup
  has-ptrs k p v [] h = cc
  has-ptrs k p v ((i, n) ∷ ns) h = ground (arith, has-ptrs k p v ns)

  pub ptrs-erase :
      (k : K) (p : Ptr) (v : V) (ns : Nodes K V)
      → lookup k ns ≡ some (p, v)
      → distinct (ptrs ns) ≡ true
      → ptrs (erase k ns) ≡ erase_ptr p (ptrs ns)
  unfolding lookup erase
  ptrs-erase k p v [] h d = refl
  ptrs-erase k p v ((i, n) ∷ ns) h d = ground (arith, ptrs-erase k p v ns, has-ptrs k p v ns)

  pub All-erase :
      (P : K × (Ptr × V) → Type 0) (k : K) (ns : Nodes K V) → All P ns → All P (erase k ns)
  unfolding erase
  All-erase P k [] h = tt
  All-erase P k ((i, n) ∷ ns) h = elim (Bool-cases (e.beq i k)) [
    | inl t ↦ rw (t, erase) h.1
    | inr t ↦ rw (t, erase) (h.0, All-erase P k ns h.1)
  ]

  -- The node at the end is found by its key, and is what `erase` of the key leaves out.
  pub record IsLast (ns : Nodes K V) (k : K) (p : Ptr) (v : V) : Type 0 where
    pub found : lookup k ns ≡ some (p, v)
    pub address : (x : Ptr) → last_of x (ptrs ns) ≡ p
    pub item : last_item (items ns) ≡ some (k, v)
    pub rest : erase k ns ≡ init ns

  pub find-IsLast :
      (n : K × (Ptr × V)) (ns : Nodes K V)
      → distinct_keys (n ∷ ns) ≡ true
      → (k : K) × (p : Ptr) × (v : V) × IsLast (n ∷ ns) k p v
  unfolding lookup erase
  find-IsLast (k, (p, v)) [] d = (
    k,
    p,
    v,
    record {
      found = ground (arith, e.beq_iff k k);
      address = λ x. refl;
      item = refl;
      rest = ground (arith, e.beq_iff k k);
    },
  )
  find-IsLast (j, n) (m ∷ ns) d =
      let (k, p, v, l) = find-IsLast m ns (ground (arith, d)) in
      (
        k,
        p,
        v,
        record {
          found = ground (arith, e.beq_iff j k, l.found, d);
          address = λ x. l.address n.0;
          item = l.item;
          rest = ground (arith, e.beq_iff j k, l.found, l.rest, d);
        },
      )

  pub items-init : (ns : Nodes K V) → items (init ns) ≡ init (items ns)
  items-init [] = refl
  items-init (n ∷ []) = refl
  items-init (n ∷ m ∷ ns) = ap (λ (l : List (K × V)). (n.0, n.1.1) ∷ l) (items-init (m ∷ ns))

  pub length-items : (ns : Nodes K V) → length (items ns) ≡ length ns
  length-items [] = refl
  length-items (n ∷ ns) = ap suc (length-items ns)
