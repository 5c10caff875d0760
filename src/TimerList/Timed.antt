-- ===== src/TimerList/Timed.antt =====
-- net/sorted_list.rs: the order of the items of a `TimerList` by their times, under `insert` and `get`.
use minifto.Common.{
  ℕ, length, ◌≤◌, ◌≡◌, refl, ap, ◌∙◌, none, some, List, [], ◌∷◌, All, Bool-cases, inl, inr, arith,
  returns,
}
use minifto.SortedList.{Eq, Ptr, lookup, erase, update}
use minifto.SortedList.Addresses.{has-append}
use minifto.SortedList.Ring.{Ring-val}
use minifto.SortedList.Table.{Nodes, ptrs, items-erase}
use minifto.SortedList.Holds.{Holds, Stored-val}
use minifto.SortedList.Operations.{absent, present, get-some, get-none}
use minifto.SortedList.Lists.{Lists, put-Lists, remove-Lists}
use minifto.SortedList
use minifto.TimerList.{TimerList, insert, get, remove, stamp}
use mathlib.Core.Option

abbrev pub Items : Type 0 → Type 0 → Type 0
Items K V = List (K × (ℕ × V))

module _ {K V : Type 0} where
  -- Each item was used no later than the one before it.
  abbrev pub Newest : Items K V → Type 0
  Newest [] = Unit
  Newest (x ∷ []) = Unit
  Newest (x ∷ y ∷ l) = (y.1.0 ≤ x.1.0) × Newest (y ∷ l)

  abbrev pub Before : ℕ → Items K V → Type 0
  Before now l = All (λ n. n.1.0 ≤ now) l

  Newest-cons : (x : K × (ℕ × V)) (l : Items K V) → Before x.1.0 l → Newest l → Newest (x ∷ l)
  Newest-cons x [] h n = tt
  Newest-cons x (y ∷ l) h n = (h.0, n)

  pub Newest-tail : (x : K × (ℕ × V)) (l : Items K V) → Newest (x ∷ l) → Newest l
  Newest-tail x [] n = tt
  Newest-tail x (y ∷ l) n = n.1

  Before-mono : (a b : ℕ) (l : Items K V) → a ≤ b → Before a l → Before b l
  Before-mono a b [] h k = tt
  Before-mono a b (x ∷ l) h k = (omega (arith, k.0), Before-mono a b l h k.1)

  Before-Newest : (x : K × (ℕ × V)) (l : Items K V) → Newest (x ∷ l) → Before x.1.0 l
  Before-Newest x [] n = tt
  Before-Newest x (y ∷ l) n = (n.0, Before-mono y.1.0 x.1.0 l n.0 (Before-Newest y l n.1))

module _ {K V : Type 0} ⦃e : Eq K⦄ where
  Before-erase : (k : K) (now : ℕ) (l : Items K V) → Before now l → Before now (erase k l)
  unfolding erase
  Before-erase k now [] h = tt
  Before-erase k now (x ∷ l) h = ground (arith, Before-erase k now l h.1)

  Newest-erase : (k : K) (l : Items K V) → Newest l → Newest (erase k l)
  unfolding erase
  Newest-erase k [] n = tt
  Newest-erase k (x ∷ l) n = elim (Bool-cases (e.beq x.0 k)) [
    | inl t ↦ rw (t, erase) (Newest-tail x l n)
    | inr t ↦
        rw (t, erase)
          (Newest-cons x (erase k l) (Before-erase k x.1.0 l (Before-Newest x l n))
            (Newest-erase k l (Newest-tail x l n)))
  ]

  -- A list whose items stand in the order of their times, none of which is after `now`.
  pub record IsTimed (now : ℕ) (t : TimerList K V) (l : Items K V) : Type 0 where
    pub lists : Lists t.list l
    pub newest : Newest l
    pub before : Before now l

  Timed-front :
      (k : K) (v : V) (earlier now : ℕ) (l : Items K V)
      → earlier ≤ now
      → Newest l
      → Before earlier l
      → Newest ((k, (now, v)) ∷ erase k l) × Before now ((k, (now, v)) ∷ erase k l)
  Timed-front k v earlier now l later newest before =
      let old = Before-erase k now l (Before-mono earlier now l later before) in
      (Newest-cons (k, (now, v)) (erase k l) old (Newest-erase k l newest), (omega arith, old))

  pub insert-IsTimed :
      (earlier now : ℕ) (t : TimerList K V) (l : Items K V) (k : K) (v : V)
      → IsTimed earlier t l
      → earlier ≤ now
      → (t' : TimerList K V) × (insert now t k v ≡ returns t')
        × IsTimed now t' ((k, (now, v)) ∷ erase k l)
  unfolding insert
  insert-IsTimed earlier now t l k v h later =
      let (s', run, after) = put-Lists t.list l k (now, v) h.lists in
      let (newest, before) = Timed-front k v earlier now l later h.newest h.before in
      (
        record t { list = s' },
        rw (run) refl,
        record { lists = after; newest = newest; before = before },
      )

  -- A write of the time through the reference to the first node.
  stamp-Holds :
      (s : SortedList.SortedList K (ℕ × V)) (ns : Nodes K (ℕ × V)) (k : K) (p : Ptr) (n : ℕ × V)
      (now : ℕ)
      → Holds s ((k, (p, n)) ∷ ns)
      → Holds (stamp now s (p, n)) ((k, (p, (now, n.1))) ∷ ns)
  unfolding lookup
  stamp-Holds s ns k p n now h = record {
    ring = Ring-val h.ring (update s.heap.val p (some (now, n.1)));
    stored = (
      (h.stored.0.0, ground arith),
      Stored-val s.heap p (some (now, n.1)) ns
          (ground (arith, h.ring.apart, has-append p (ptrs ns) (s.tail ∷ []))) h.stored.1,
    );
    keys = h.keys;
    mapped = λ j. ground (arith, h.mapped j);
    map_keys = h.map_keys;
    sized = h.sized;
  }

  -- If the items of a list stand in the order of their times, none of which is after the time of
  -- the call, then `get` of a key that is there returns its value. Its item is the first then,
  -- with the time of the call, and the items stand in the order of their times again.
  pub get-IsTimed :
      (earlier now : ℕ) (t : TimerList K V) (l : Items K V) (k : K) (n : ℕ × V)
      → IsTimed earlier t l
      → earlier ≤ now
      → lookup k l ≡ some n
      → (t' : TimerList K V) × (get now t k ≡ returns (t', some n.1))
        × IsTimed now t' ((k, (now, n.1)) ∷ erase k l)
  unfolding get
  get-IsTimed earlier now t l k n h later found =
      let ns = h.lists.nodes in
      let (p, i) = present k n ns (ap (lookup k) h.lists.same ∙ found) in
      let (s', run, after) = get-some t.list ns h.lists.holds k p n i in
      let (newest, before) = Timed-front k n.1 earlier now l later h.newest h.before in
      (
        record t { list = stamp now s' (p, n) },
        rw (run) refl,
        record {
          lists = record {
            nodes = (k, (p, (now, n.1))) ∷ erase k ns;
            holds = stamp-Holds s' (erase k ns) k p n now after;
            same =
                ap (λ (m : Items K V). (k, (now, n.1)) ∷ m)
                  (items-erase k ns ∙ ap (erase k) h.lists.same);
          };
          newest = newest;
          before = before;
        },
      )

  -- `get` of a key that is not there.
  pub get-absent :
      (now : ℕ) (t : TimerList K V) (l : Items K V) (k : K)
      → Lists t.list l
      → lookup k l ≡ none
      → get now t k ≡ returns (t, none)
  unfolding get
  get-absent now t l k h none_there =
      rw (get-none t.list h.nodes h.holds k (absent k h.nodes (ap (lookup k) h.same ∙ none_there)))
        refl

  pub remove-IsTimed :
      (now : ℕ) (t : TimerList K V) (l : Items K V) (k : K)
      → IsTimed now t l
      → (t' : TimerList K V) × (remove t k ≡ returns (t', Option.map (λ n. n.1) (lookup k l)))
        × IsTimed now t' (erase k l)
  unfolding remove
  remove-IsTimed now t l k h =
      let (s', run, after) = remove-Lists t.list l k h.lists in
      (
        record t { list = s' },
        rw (run) refl,
        record {
          lists = after;
          newest = Newest-erase k l h.newest;
          before = Before-erase k now l h.before;
        },
      )

  pub later-IsTimed :
      (a b : ℕ) (t : TimerList K V) (l : Items K V) → a ≤ b → IsTimed a t l → IsTimed b t l
  later-IsTimed a b t l later h = record {
    lists = h.lists;
    newest = h.newest;
    before = Before-mono a b l later h.before;
  }

  pub length-erase_le : (k : K) (l : Items K V) → length (erase k l) ≤ length l
  unfolding erase
  length-erase_le k [] = omega arith
  length-erase_le k (x ∷ l) = ground (arith, length-erase_le k l)
