-- ===== src/SortedList/Lists.antt =====
-- net/sorted_list.rs: the items that a list holds, and the operations on them.
use minifto.Common.{
  ◌≡◌, refl, sym, ap, subst, ◌∙◌, true, false, none, some, List, [], ◌∷◌, length, Option-cases, inl,
  inr, arith, returns,
}
use minifto.SortedList.{Eq, Ptr, Heap, SortedList, lookup, erase, new, drop_node}
use minifto.SortedList
use minifto.SortedList.Table.{
  Nodes, items, lookup-items, items-erase, erase_of_none, find-IsLast, last_item, init, items-init,
  length-items,
}
use minifto.SortedList.Holds.{Holds}
use minifto.SortedList.Operations.{remove-some, remove-none, put-some, put-none}
use minifto.SortedList.Last.{taken, last-some, drop_last-some, dropped-Holds}

module _ {K V : Type 0} ⦃e : Eq K⦄ where
  -- The list holds these items, the most recently used first.
  pub record Lists (s : SortedList K V) (l : List (K × V)) : Type 0 where
    pub nodes : Nodes K V
    pub holds : Holds s nodes
    pub same : items nodes ≡ l

  module _ (s : SortedList K V) (ns : Nodes K V) (holds : Holds s ns) where
    pub put-Holds :
        (k : K) (w : V)
        → (s' : SortedList K V) × (SortedList.put s k w ≡ returns (s', lookup k (items ns)))
          × Lists s' ((k, w) ∷ erase k (items ns))
    put-Holds k w = elim (Option-cases (lookup k ns)) [
      | inl i ↦
          let found : lookup k (items ns) ≡ none = rw (lookup-items k ns, i) refl in
          let (s', run, after) = put-none s ns holds k w i in
          (
            s',
            rw (run, found) refl,
            record {
              nodes = _;
              holds = after;
              same = ap (λ (l : List (K × V)). (k, w) ∷ l) (sym (erase_of_none k (items ns) found));
            },
          )
      | inr i ↦
          let (s', run, after) = put-some s ns holds k i.0.0 i.0.1 w i.1 in
          (
            s',
            rw (run, lookup-items k ns, i.1) refl,
            record {
              nodes = _;
              holds = after;
              same = ap (λ (l : List (K × V)). (k, w) ∷ l) (items-erase k ns);
            },
          )
    ]

    pub remove-Holds :
        (k : K)
        → (s' : SortedList K V) × (SortedList.remove s k ≡ returns (s', lookup k (items ns)))
          × Lists s' (erase k (items ns))
    remove-Holds k = elim (Option-cases (lookup k ns)) [
      | inl i ↦
          let found : lookup k (items ns) ≡ none = rw (lookup-items k ns, i) refl in
          (
            s,
            rw (remove-none s ns holds k i, found) refl,
            record { nodes = ns; holds = holds; same = sym (erase_of_none k (items ns) found) },
          )
      | inr i ↦
          let (s', run, after) = remove-some s ns holds k i.0.0 i.0.1 i.1 in
          (
            s',
            rw (run, lookup-items k ns, i.1) refl,
            record { nodes = erase k ns; holds = after; same = items-erase k ns },
          )
    ]

  -- `put` returns the value that the key had, and its item is the first then.
  pub put-Lists :
      (s : SortedList K V) (l : List (K × V)) (k : K) (w : V)
      → Lists s l
      → (s' : SortedList K V) × (SortedList.put s k w ≡ returns (s', lookup k l))
        × Lists s' ((k, w) ∷ erase k l)
  put-Lists s l k w h =
      subst
        (λ m.
          (s' : SortedList K V) × (SortedList.put s k w ≡ returns (s', lookup k m))
          × Lists s' ((k, w) ∷ erase k m))
        h.same (put-Holds s h.nodes h.holds k w)

  pub remove-Lists :
      (s : SortedList K V) (l : List (K × V)) (k : K)
      → Lists s l
      → (s' : SortedList K V) × (SortedList.remove s k ≡ returns (s', lookup k l))
        × Lists s' (erase k l)
  remove-Lists s l k h =
      subst
        (λ m.
          (s' : SortedList K V) × (SortedList.remove s k ≡ returns (s', lookup k m))
          × Lists s' (erase k m))
        h.same (remove-Holds s h.nodes h.holds k)

  pub size-Lists :
      (s : SortedList K V) (l : List (K × V)) → Lists s l → SortedList.size s ≡ length l
  unfolding SortedList.size
  size-Lists s l h = h.holds.sized ∙ sym (length-items h.nodes) ∙ ap length h.same

  drop_last-nodes :
      (s : SortedList K V) (x : K × V) (l : List (K × V)) (ns : Nodes K V)
      → Holds s ns
      → items ns ≡ x ∷ l
      → (k : K) × (v : V) × (s' : SortedList K V) × (last_item (x ∷ l) ≡ some (k, v))
        × (SortedList.is_empty s ≡ false)
        × (SortedList.last s ≡ returns (some v))
        × (SortedList.drop_last s ≡ returns (s', true))
        × Lists s' (init (x ∷ l))
  unfolding SortedList.is_empty SortedList.size
  drop_last-nodes s x l [] holds e = cc
  drop_last-nodes s x l (n ∷ ns) holds e =
      let (k, p, v, at_end) = find-IsLast n ns holds.keys in
      (
        k,
        v,
        drop_node (taken holds at_end) p,
        ap last_item (sym e) ∙ at_end.item,
        ground (arith, holds.sized),
        last-some holds at_end,
        drop_last-some holds at_end,
        record {
          nodes = init (n ∷ ns);
          holds = dropped-Holds holds at_end;
          same = items-init (n ∷ ns) ∙ ap init e;
        },
      )

  is_empty-nodes :
      (s : SortedList K V) (ns : Nodes K V)
      → Holds s ns
      → items ns ≡ []
      → SortedList.is_empty s ≡ true
  unfolding SortedList.is_empty SortedList.size
  is_empty-nodes s [] holds e = ground (arith, holds.sized)
  is_empty-nodes s (n ∷ ns) holds e = cc

  -- The list without its last item, after `drop_last`.
  pub drop_last-Lists :
      (s : SortedList K V) (x : K × V) (l : List (K × V))
      → Lists s (x ∷ l)
      → (k : K) × (v : V) × (s' : SortedList K V) × (last_item (x ∷ l) ≡ some (k, v))
        × (SortedList.is_empty s ≡ false)
        × (SortedList.last s ≡ returns (some v))
        × (SortedList.drop_last s ≡ returns (s', true))
        × Lists s' (init (x ∷ l))
  drop_last-Lists s x l h = drop_last-nodes s x l h.nodes h.holds h.same

  pub is_empty-Lists : (s : SortedList K V) → Lists s [] → SortedList.is_empty s ≡ true
  is_empty-Lists s h = is_empty-nodes s h.nodes h.holds h.same

  pub new-Lists : (h : Heap K V) → Lists (new h) []
  unfolding new lookup
  new-Lists h = record {
    nodes = [];
    holds = record {
      ring = record {
        linked = (ground arith, ground arith, tt);
        apart = ground arith;
        alive = (ground arith, (ground arith, tt));
        below = (omega arith, (omega arith, tt));
      };
      stored = tt;
      keys = refl;
      mapped = λ k. refl;
      map_keys = refl;
      sized = refl;
    };
    same = refl;
  }
