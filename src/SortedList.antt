-- ===== src/SortedList.antt =====
-- net/sorted_list.rs: `SortedList`, a map into the nodes of a doubly linked list, the most recently
-- used first. A read of a field that was never initialised is undefined behaviour, for which
-- `panics` stands too.
pub mod Nodes
pub mod Keys
pub mod Addresses
pub mod Links
pub mod Ring
pub mod Table
pub mod Holds
pub mod Operations
pub mod Last
pub mod Lists
pub mod Drop
pub mod Trace
pub mod Examples
use minifto.Common.{
  ℕ, zero, suc, ◌+◌, ◌≡◌, ◌↔◌, Bool, true, false, not, Option, none, some, List, [], ◌∷◌, ◌==◌,
  if◌then◌else◌, length, Fallible, returns, panics, ◌>>=◌, unwrap,
}
pub use minifto.SortedList.Nodes.{Ptr, Heap, update, deref, write_next, write_prev, box, free}
unfoldable pub use minifto.SortedList.Nodes.{detach, attach}

-- `Eq` of the keys.
pub record Eq (K : Type 0) : Type 0 where
  pub beq : K → K → Bool
  pub beq_iff : (a b : K) → (beq a b ≡ true) ↔ (a ≡ b)

-- `HashMap<KeyRef<K>, Box<Entry<K, V>>>`: a reference to a key stands for the key, which no
-- operation changes, and a box for its address.
pub record SortedList (K V : Type 0) : Type 0 where
  pub heap : Heap K V
  pub map : List (K × Ptr)
  pub head : Ptr
  pub tail : Ptr

module _ {K V : Type 0} where
  -- `new`: both ends are boxes whose key and value are never initialised.
  unfoldable pub new : Heap K V → SortedList K V
  new h =
      let head : Ptr = h.fresh in
      let h1 : Heap K V = box h none none in
      let tail : Ptr = h1.fresh in
      let h2 : Heap K V = box h1 none none in
      let h3 : Heap K V = write_prev (write_next h2 head tail) head head in
      record {
        heap = write_next (write_prev h3 tail head) tail tail;
        map = [];
        head = head;
        tail = tail;
      }

  -- `last` and `front` return `Some` of whatever stands in the node.
  unfoldable pub last : SortedList K V → Fallible (Option V)
  last s = do
    node ← deref s.heap s.tail (s.heap.prev s.tail)
    val ← deref s.heap node (s.heap.val node)
    v ← unwrap val
    returns (some v)

  unfoldable pub front : SortedList K V → Fallible (Option V)
  front s = do
    node ← deref s.heap s.head (s.heap.next s.head)
    val ← deref s.heap node (s.heap.val node)
    v ← unwrap val
    returns (some v)

  unfoldable pub size : SortedList K V → ℕ
  size s = length s.map

  unfoldable pub is_empty : SortedList K V → Bool
  is_empty s = size s == 0

module _ {K : Type 0} ⦃e : Eq K⦄ where
  -- `HashMap::get`, `remove` and `insert`
  unfoldable pub lookup {ℓ} : {A : Type ℓ} → K → List (K × A) → Option A
  lookup k [] = none
  lookup k ((j, a) ∷ m) = if e.beq j k then some a else lookup k m

  unfoldable pub erase {ℓ} : {A : Type ℓ} → K → List (K × A) → List (K × A)
  erase k [] = []
  erase k ((j, a) ∷ m) = if e.beq j k then m else (j, a) ∷ erase k m

module _ {K V : Type 0} ⦃e : Eq K⦄ where
  -- A node is moved to the front.
  unfoldable pub to_front : SortedList K V → Ptr → Fallible (SortedList K V)
  unfolding detach attach
  to_front s node = do
    h1 ← detach s.heap node
    h2 ← attach h1 s.head node
    returns (record s { heap = h2 })

  put_at : SortedList K V → Ptr → V → Fallible (SortedList K V × Option V)
  put_at s node v = do
    val ← deref s.heap node (s.heap.val node)
    old ← unwrap val
    s' ← to_front (record s { heap = record s.heap { val = update s.heap.val node (some v) } }) node
    returns (s', some old)

  put_new : SortedList K V → K → V → Fallible (SortedList K V × Option V)
  put_new s k v = do
    let node : Ptr = s.heap.fresh
    h ← attach (box s.heap (some k) (some v)) s.head node
    returns (record s { heap = h; map = (k, node) ∷ erase k s.map }, none)

  -- `put`
  unfoldable pub put : SortedList K V → K → V → Fallible (SortedList K V × Option V)
  unfolding put_at put_new
  put s k v = elim (lookup k s.map) [ some node ↦ put_at s node v | none ↦ put_new s k v ]

  -- `get` and `get_mut`: the reference is returned as its address and the value that is there.
  unfoldable pub get : SortedList K V → K → Fallible (SortedList K V × Option (Ptr × V))
  get s k = elim (lookup k s.map) [
    | none ↦ returns (s, none)
    | some node ↦ do
      val ← deref s.heap node (s.heap.val node)
      v ← unwrap val
      s' ← to_front s node
      returns (s', some (node, v))
  ]

  unfoldable pub contains : SortedList K V → K → Bool
  contains s k = elim (lookup k s.map) [ none ↦ false | some node ↦ true ]

  -- The box that the map gives up is detached, and dropped by the caller.
  unfoldable pub take_node : SortedList K V → K → Ptr → Fallible (SortedList K V)
  unfolding detach erase
  take_node s k node = do
    h ← detach s.heap node
    returns (record s { heap = h; map = erase k s.map })

  abbrev pub drop_node : SortedList K V → Ptr → SortedList K V
  drop_node s node = record s { heap = free s.heap node }

  -- `remove`
  unfoldable pub remove : SortedList K V → K → Fallible (SortedList K V × Option V)
  remove s k = elim (lookup k s.map) [
    | none ↦ returns (s, none)
    | some node ↦ do
      s' ← take_node s k node
      val ← deref s'.heap node (s'.heap.val node)
      v ← unwrap val
      returns (drop_node s' node, some v)
  ]

  -- `remove_last`, with the address of the box that it returns.
  unfoldable pub remove_last : SortedList K V → Fallible (SortedList K V × Option Ptr)
  remove_last s = do
    last ← deref s.heap s.tail (s.heap.prev s.tail)
    if last == s.head then returns (s, none) else (do
      key ← deref s.heap last (s.heap.key last)
      k ← unwrap key
      node ← unwrap (lookup k s.map)
      s' ← take_node s k node
      returns (s', some node))

  -- `pop`: the box is taken apart.
  unfoldable pub pop : SortedList K V → Fallible (SortedList K V × Option (K × V))
  pop s = remove_last s >>= λ r. elim r.1 [
    | none ↦ returns (r.0, none)
    | some node ↦ do
      key ← deref r.0.heap node (r.0.heap.key node)
      k ← unwrap key
      val ← deref r.0.heap node (r.0.heap.val node)
      v ← unwrap val
      returns (drop_node r.0 node, some (k, v))
  ]

  -- The body of the loop of `clear`; a box that is not used is dropped.
  unfoldable pub drop_last : SortedList K V → Fallible (SortedList K V × Bool)
  drop_last s = remove_last s >>= λ r. elim r.1 [
    | none ↦ returns (r.0, false)
    | some node ↦ returns (drop_node r.0 node, true)
  ]

  -- `clear`, in at most `fuel` rounds.
  unfoldable pub clear : ℕ → SortedList K V → Fallible (Option (SortedList K V))
  clear zero s = returns none
  clear (suc fuel) s =
      drop_last s >>= λ r. elim r.1 [ true ↦ clear fuel r.0 | false ↦ returns (some r.0) ]

-- The boxes of the map.
abbrev pub boxes : {K : Type 0} → List (K × Ptr) → List Ptr
boxes [] = []
boxes ((k, p) ∷ m) = p ∷ boxes m

module _ {K V : Type 0} where
  -- The boxes are dropped one after the other; a box that is dropped twice is undefined behaviour.
  unfoldable pub free_all : Heap K V → List Ptr → Fallible (Heap K V)
  free_all h [] = returns h
  free_all h (p ∷ ps) = deref h p (free h p) >>= λ h'. free_all h' ps

  -- `Drop`: the two ends, without their keys and values, and then the boxes of the map.
  unfoldable pub drop : SortedList K V → Fallible (Heap K V)
  unfolding free_all
  drop s = free_all s.heap (s.head ∷ s.tail ∷ boxes s.map)
