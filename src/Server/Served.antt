-- ===== src/Server/Served.antt =====
-- server/server.rs: the invariant of the server, and the outcome of an operation that keeps it.
use minifto.Common.{
  none, true, false, ◌==◌, Bool-cases, subst, arith, ℕ, ◌≤◌, ◌≡◌, refl, sym, subst, Bool, true,
  false, List, [], ◌∷◌, length, if◌then◌else◌, inl, inr, ◌⊎◌, arith, Fallible, returns, panics,
  ◌>>=◌,
}
use minifto.Os.{Os}
use minifto.EventLoop.{Token}
use minifto.SortedList.Keys.{descriptor}
use minifto.TimerList.Timed.{Items, IsTimed, later-IsTimed}
use minifto.SortedList.{update}
use minifto.Connection
use minifto.Kernel.{Kernel}
use minifto.Server.State.{Slot, Moment, System}

-- A time is no later than that of the event, and the clock's readings are within its bounds.
abbrev pub At : ℕ → Moment → Type 0
At t moment =
    (t ≤ moment.now)
    × ((i : ℕ) → (moment.now ≤ moment.clock i) × (moment.clock i ≤ moment.until))
    × (moment.now ≤ moment.until)

-- The events happen one after the other, after the time `t`.
abbrev pub InTime : ℕ → List (Moment × (Token × ℕ)) → Type 0
InTime t [] = Unit
InTime t (e ∷ es) = At t e.0 × InTime e.0.until es

-- The time after the events.
abbrev pub end_of : ℕ → List (Moment × (Token × ℕ)) → ℕ
end_of t [] = t
end_of t (e ∷ es) = end_of e.0.until es

module _ {os : Os} {kernel : Kernel} (start : System os kernel) where
  -- What panics the thread of the server: an error of a system call, or a mutex that was poisoned.
  pub data Fault : Type 0 where
    accept_fails : (fd : ℕ) (w : kernel.World) → (kernel.accept fd w).0 ≡ none → Fault
    option_fails :
        (fd : ℕ) (w : kernel.World)
        → ((kernel.no_delay fd true w).0 ≡ false) ⊎ ((kernel.keep_alive fd true w).0 ≡ false)
        → Fault
    address_fails :
        (fd : ℕ) (w : kernel.World)
        → Connection.new fd (kernel.sockname fd w) (kernel.peername fd w) ≡ panics
        → Fault
    add_fails :
        (fd events : ℕ) (w : kernel.World) → (kernel.epoll_add fd events w).0 ≡ false → Fault
    del_fails : (fd : ℕ) (w : kernel.World) → (kernel.epoll_del fd w).0 ≡ false → Fault
    was_poisoned : (s : ℕ) → (start.slots s).poisoned ≡ true → Fault

  -- Only the mutexes are poisoned that were so at the start.
  abbrev pub Sound : (ℕ → Slot os.Sock) → Type 0
  Sound slots = (s : ℕ) → (slots s).poisoned ≡ true → (start.slots s).poisoned ≡ true

  -- The sessions stand in the order of their last use, none after the time `t`, and there are no
  -- more than `max_clients`, unless that is 0.
  pub record IsServer (t : ℕ) (m : System os kernel) (l : Items ℕ ℕ) : Type 0 where
    pub timed : IsTimed t m.server.sessions l
    pub at_most : (m.server.config.max_clients ≡ 0) ⊎ (length l ≤ m.server.config.max_clients)
    pub sound : Sound m.slots

  -- A panic for a fault, or a system that the invariant holds of.
  unfoldable pub Served : ℕ → Fallible (System os kernel) → Type 0
  Served t r =
      ((r ≡ panics) × Fault)
      ⊎ ((m : System os kernel) × (l : Items ℕ ℕ) × (r ≡ returns m) × IsServer t m l)

  pub continued :
      {A : Type 0} (t : ℕ) (x : Fallible A) (a : A) (f : A → Fallible (System os kernel))
      → x ≡ returns a
      → Served t (f a)
      → Served t (x >>= f)
  continued t x a f e h = subst (λ y. Served t (y >>= f)) (sym e) h

  pub branch :
      (t : ℕ) (b : Bool) (x y : Fallible (System os kernel))
      → (b ≡ true → Served t x)
      → (b ≡ false → Served t y)
      → Served t (if b then x else y)
  branch t true x y h k = h refl
  branch t false x y h k = k refl

  pub Sound-update :
      (slots : ℕ → Slot os.Sock) (p : ℕ) (slot : Slot os.Sock)
      → Sound slots
      → (slot.poisoned ≡ true → (start.slots p).poisoned ≡ true)
      → Sound (update slots p slot)
  Sound-update slots p slot h k s e = elim (Bool-cases (p == s)) [
    | inl same ↦
        let here : p ≡ s = ground (arith, same) in
        subst (λ q. (start.slots q).poisoned ≡ true) here (k (ground (arith, e, same)))
    | inr other ↦ h s (ground (arith, e, other))
  ]

module _ {os : Os} {kernel : Kernel} {start : System os kernel} where
  pub settled :
      (t : ℕ) (m : System os kernel) (l : Items ℕ ℕ)
      → IsServer start t m l
      → Served start t (returns m)
  unfolding Served
  settled t m l h = inr (m, l, refl, h)

  pub either :
      {A : Type 0} (t : ℕ) (x : Fallible A) (f : A → Fallible (System os kernel))
      → (x ≡ panics → Fault start)
      → ((a : A) → Served start t (f a))
      → Served start t (x >>= f)
  unfolding Served
  either t panics f k h = inl (refl, k refl)
  either t (returns a) f k h = h a

  pub Served-bind :
      (t s : ℕ) (r : Fallible (System os kernel))
      (f : System os kernel → Fallible (System os kernel))
      → Served start s r
      → ((m : System os kernel) (l : Items ℕ ℕ) → IsServer start s m l → Served start t (f m))
      → Served start t (r >>= f)
  unfolding Served
  Served-bind t s r f (inl e) k = inl (rw (e.0) refl, e.1)
  Served-bind t s r f (inr (m, l, e, h)) k = continued start t r m f e (k m l h)

  -- A list that is not longer is within the limit too.
  pub shorter :
      (t : ℕ) (m : System os kernel) (l l' : Items ℕ ℕ)
      → IsServer start t m l
      → length l' ≤ length l
      → (m.server.config.max_clients ≡ 0) ⊎ (length l' ≤ m.server.config.max_clients)
  shorter t m l l' h less = elim h.at_most [ inl z ↦ inl z | inr n ↦ inr (omega (arith, less, n)) ]

  pub later :
      (t u : ℕ) (m : System os kernel) (l : Items ℕ ℕ)
      → t ≤ u
      → IsServer start t m l
      → IsServer start u m l
  later t u m l le h = record {
    timed = later-IsTimed t u m.server.sessions l le h.timed;
    at_most = h.at_most;
    sound = h.sound;
  }
