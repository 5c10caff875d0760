-- ===== src/SortedList/Nodes.antt =====
-- net/sorted_list.rs: the nodes `Entry` in the heap, which is kept field by field, and the two
-- operations on their pointers. A read of a freed node is undefined behaviour, for which `panics`
-- stands.
use minifto.Common.{
  ℕ, ◌+◌, Bool, true, false, Option, ◌==◌, if◌then◌else◌, Fallible, returns, panics, ◌>>=◌,
}

abbrev pub Ptr : Type 0
Ptr = ℕ

abbrev pub update {ℓ} : {A : Type ℓ} → (Ptr → A) → Ptr → A → Ptr → A
update f p a q = if p == q then a else f q

-- The nodes `Entry`, and the next address that the allocator gives.
pub record Heap (K V : Type 0) : Type 0 where
  pub next : Ptr → Ptr
  pub prev : Ptr → Ptr
  pub key : Ptr → Option K
  pub val : Ptr → Option V
  pub live : Ptr → Bool
  pub fresh : Ptr

module _ {K V : Type 0} where
  -- `*p`
  abbrev pub deref {ℓ} : {A : Type ℓ} → Heap K V → Ptr → A → Fallible A
  deref h p a = if h.live p then returns a else panics

  abbrev pub write_next : Heap K V → Ptr → Ptr → Heap K V
  write_next h p q = record h { next = update h.next p q }

  abbrev pub write_prev : Heap K V → Ptr → Ptr → Heap K V
  write_prev h p q = record h { prev = update h.prev p q }

  -- `Box::new(Entry { .. })`, at a new address.
  abbrev pub box : Heap K V → Option K → Option V → Heap K V
  box h k v = record h {
    next = update h.next h.fresh 0;
    prev = update h.prev h.fresh 0;
    key = update h.key h.fresh k;
    val = update h.val h.fresh v;
    live = update h.live h.fresh true;
    fresh = h.fresh + 1;
  }

  -- The drop of a `Box<Entry>`.
  abbrev pub free : Heap K V → Ptr → Heap K V
  free h p = record h { live = update h.live p false }

  -- `detach`
  unfoldable pub detach : Heap K V → Ptr → Fallible (Heap K V)
  detach h node = do
    before ← deref h node (h.prev node)
    after ← deref h node (h.next node)
    h1 ← deref h before (write_next h before after)
    after ← deref h1 node (h1.next node)
    before ← deref h1 node (h1.prev node)
    deref h1 after (write_prev h1 after before)

  -- `attach`, behind `head`.
  unfoldable pub attach : Heap K V → Ptr → Ptr → Fallible (Heap K V)
  attach h head node = do
    first ← deref h head (h.next head)
    h1 ← deref h node (write_next h node first)
    h2 ← deref h1 node (write_prev h1 node head)
    h3 ← deref h2 head (write_next h2 head node)
    first ← deref h3 node (h3.next node)
    deref h3 first (write_prev h3 first node)
