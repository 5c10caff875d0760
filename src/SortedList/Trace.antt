-- ===== src/SortedList/Trace.antt =====
-- net/sorted_list.rs: sequences of operations, and what they return.
use minifto.Common.{
  ℕ, ◌+◌, ◌≡◌, refl, ap, subst, Bool, Option, none, some, List, [], ◌∷◌, length, is_some,
  Option-cases, inl, inr, arith, Fallible, returns, panics, ◌>>=◌,
}
use minifto.SortedList.{Eq, Ptr, SortedList, lookup, erase, drop_node}
use minifto.SortedList
use minifto.SortedList.Table.{
  Nodes, items, lookup-items, items-erase, find-IsLast, last_item, init, items-init, length-items,
}
use minifto.SortedList.Holds.{Holds}
use minifto.SortedList.Operations.{get-some, get-none}
use minifto.SortedList.Last.{taken, pop-some, pop-none, dropped-Holds, clear-Holds}
use mathlib.Core.Option
use minifto.SortedList.Lists.{Lists, put-Holds, remove-Holds}

pub data Op (K V : Type 0) : Type 0 where
  put : K → V → Op K V
  get remove contains : K → Op K V
  pop len clear : Op K V

pub data Out (K V : Type 0) : Type 0 where
  value : Option V → Out K V
  item : Option (K × V) → Out K V
  flag : Bool → Out K V
  count : ℕ → Out K V
  cleared : Out K V

module _ {K V : Type 0} ⦃e : Eq K⦄ where
  -- One operation of the program. The loop of `clear` has a round for each item, and one more.
  unfoldable pub step : SortedList K V → Op K V → Fallible (SortedList K V × Out K V)
  step s (Op.put k v) = SortedList.put s k v >>= λ r. returns (r.0, Out.value r.1)
  step s (Op.get k) =
      SortedList.get s k >>= λ r. returns (r.0, Out.value (Option.map (λ n. n.1) r.1))
  step s (Op.remove k) = SortedList.remove s k >>= λ r. returns (r.0, Out.value r.1)
  step s (Op.contains k) = returns (s, Out.flag (SortedList.contains s k))
  step s Op.pop = SortedList.pop s >>= λ r. returns (r.0, Out.item r.1)
  step s Op.len = returns (s, Out.count (SortedList.size s))
  step s Op.clear = SortedList.clear (SortedList.size s + 1) s >>= λ r. elim r [
    | none ↦ panics
    | some s' ↦ returns (s', Out.cleared)
  ]

  unfoldable pub run : SortedList K V → List (Op K V) → Fallible (List (Out K V))
  run s [] = returns []
  run s (op ∷ ops) = step s op >>= λ r. run r.0 ops >>= λ outs. returns (r.1 ∷ outs)

  -- The same operations on a list of items, the most recently used first.
  unfoldable pub spec : List (K × V) → Op K V → List (K × V) × Out K V
  spec l (Op.put k v) = ((k, v) ∷ erase k l, Out.value (lookup k l))
  spec l (Op.get k) =
      (elim (lookup k l) [ none ↦ l | some v ↦ (k, v) ∷ erase k l ], Out.value (lookup k l))
  spec l (Op.remove k) = (erase k l, Out.value (lookup k l))
  spec l (Op.contains k) = (l, Out.flag (is_some (lookup k l)))
  spec l Op.pop = (init l, Out.item (last_item l))
  spec l Op.len = (l, Out.count (length l))
  spec l Op.clear = ([], Out.cleared)

  unfoldable pub run_spec : List (K × V) → List (Op K V) → List (Out K V)
  run_spec l [] = []
  run_spec l (op ∷ ops) = let r = spec l op in r.1 ∷ run_spec r.0 ops

  abbrev Steps : SortedList K V → List (K × V) → Op K V → Type 0
  Steps s l op =
      (s' : SortedList K V) × (step s op ≡ returns (s', (spec l op).1)) × Lists s' (spec l op).0

  module _ (s : SortedList K V) (ns : Nodes K V) (holds : Holds s ns) where
    step-put : (k : K) (w : V) → Steps s (items ns) (Op.put k w)
    unfolding step spec
    step-put k w = let (s', run, after) = put-Holds s ns holds k w in (s', rw (run) refl, after)

    step-get : (k : K) → Steps s (items ns) (Op.get k)
    unfolding step spec
    step-get k = elim (Option-cases (lookup k ns)) [
      | inl i ↦
          let found : lookup k (items ns) ≡ none = rw (lookup-items k ns, i) refl in
          (
            s,
            rw (get-none s ns holds k i, found) refl,
            record { nodes = ns; holds = holds; same = rw (found, spec) refl },
          )
      | inr i ↦
          let found : lookup k (items ns) ≡ some i.0.1 = rw (lookup-items k ns, i.1) refl in
          let (s', run, after) = get-some s ns holds k i.0.0 i.0.1 i.1 in
          (
            s',
            rw (run, found) refl,
            record {
              nodes = _;
              holds = after;
              same =
                  rw (found, spec) (ap (λ (l : List (K × V)). (k, i.0.1) ∷ l) (items-erase k ns));
            },
          )
    ]

    step-remove : (k : K) → Steps s (items ns) (Op.remove k)
    unfolding step spec
    step-remove k = let (s', run, after) = remove-Holds s ns holds k in (s', rw (run) refl, after)

    step-contains : (k : K) → Steps s (items ns) (Op.contains k)
    unfolding step spec SortedList.contains
    step-contains k = (
      s,
      ground (arith, holds.mapped k, lookup-items k ns),
      record { nodes = ns; holds = holds; same = refl },
    )

    step-len : Steps s (items ns) Op.len
    unfolding step spec SortedList.size
    step-len = (
      s,
      rw (holds.sized, length-items ns) refl,
      record { nodes = ns; holds = holds; same = refl },
    )

    step-clear : Steps s (items ns) Op.clear
    unfolding step spec SortedList.size
    step-clear =
        let (s', run, after) =
          clear-Holds (length s.map + 1) s ns holds (omega (arith, holds.sized)) in
        (s', rw (run) refl, record { nodes = []; holds = after; same = refl })

  step-pop : (s : SortedList K V) (ns : Nodes K V) → Holds s ns → Steps s (items ns) Op.pop
  unfolding step spec
  step-pop s [] holds =
      (s, rw (pop-none s holds) refl, record { nodes = []; holds = holds; same = refl })
  step-pop s (n ∷ ns) holds =
      let (k, p, v, l) = find-IsLast n ns holds.keys in
      (
        drop_node (taken holds l) p,
        rw (pop-some holds l, l.item) refl,
        record { nodes = init (n ∷ ns); holds = dropped-Holds holds l; same = items-init (n ∷ ns) },
      )

  step-Holds :
      (s : SortedList K V) (ns : Nodes K V) (op : Op K V) → Holds s ns → Steps s (items ns) op
  step-Holds s ns (Op.put k v) holds = step-put s ns holds k v
  step-Holds s ns (Op.get k) holds = step-get s ns holds k
  step-Holds s ns (Op.remove k) holds = step-remove s ns holds k
  step-Holds s ns (Op.contains k) holds = step-contains s ns holds k
  step-Holds s ns Op.pop holds = step-pop s ns holds
  step-Holds s ns Op.len holds = step-len s ns holds
  step-Holds s ns Op.clear holds = step-clear s ns holds

  pub step-Lists : (s : SortedList K V) (l : List (K × V)) (op : Op K V) → Lists s l → Steps s l op
  step-Lists s l op h = subst (λ m. Steps s m op) h.same (step-Holds s h.nodes op h.holds)
