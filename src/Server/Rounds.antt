-- ===== src/Server/Rounds.antt =====
-- net/event_loop.rs and server/server.rs: the server's invariant over the turns of `run`.
use minifto.Common.{
  ℕ, zero, suc, ◌+◌, ◌≡◌, refl, ap, sym, ◌∙◌, subst, Bool, true, false, if◌then◌else◌, none, List,
  [], ◌∷◌, Bytes, Option-cases, inl, inr, ◌⊎◌, arith, Fallible, returns, panics, ◌>>=◌, length,
}
use minifto.Os.{Os}
use minifto.Kernel.{Kernel}
use minifto.Poller
use minifto.EventLoop.{EventLoop, Token, tokens, order}
use minifto.EventLoop.Order.{seen, order-tokens}
use minifto.TimerList.Timed.{Items}
use minifto.Server.{serve}
use minifto.Server.State.{Moment, System}
use minifto.Server.Served.{Fault, At, InTime, end_of, IsServer, Served}
use minifto.Server.Invariant.{serve-Served}
use minifto.Server.Loop.{Running, stamp, hand_over, turn, run}

-- The time after `k` events: `t` before the first.
abbrev pub time_after : (t : ℕ) → (times : ℕ → Moment) → ℕ → ℕ
time_after t times zero = t
time_after t times (suc k) = (times k).until

-- No event comes before the one in front of it is done.
abbrev pub AllInTime : ℕ → (ℕ → Moment) → Type 0
AllInTime t times = (k : ℕ) → At (time_after t times k) (times k)

stamp-InTime :
    (t : ℕ) (times : ℕ → Moment) (k : ℕ) (es : List (Token × ℕ))
    → AllInTime t times
    → InTime (time_after t times k) (stamp times k es)
stamp-InTime t times k [] h = tt
stamp-InTime t times k (e ∷ es) h =
    let next : time_after t times (k + 1) ≡ (times k).until = ground arith in
    (h k, subst (λ u. InTime u (stamp times (k + 1) es)) next (stamp-InTime t times (k + 1) es h))

end_of-stamp :
    (t : ℕ) (times : ℕ → Moment) (k : ℕ) (es : List (Token × ℕ))
    → end_of (time_after t times k) (stamp times k es) ≡ time_after t times (k + length es)
end_of-stamp t times k [] = ground arith
end_of-stamp t times k (e ∷ es) =
    let next : time_after t times (k + 1) ≡ (times k).until = ground arith in
    let moved : k + 1 + length es ≡ k + suc (length es) = omega arith in
    subst (λ u. end_of u (stamp times (k + 1) es) ≡ time_after t times (k + suc (length es))) next
      (end_of-stamp t times (k + 1) es ∙ ap (time_after t times) moved)

module _ {os : Os} {kernel : Kernel} (start : System os kernel) (t : ℕ) (times : ℕ → Moment) where
  -- A panic for a fault, or for an error of `epoll_wait`; or a system that the invariant holds of.
  unfoldable pub Ran : Fallible (Running os kernel) → Type 0
  Ran r =
      ((r ≡ panics)
        × (Fault start
            ⊎ ((poll_fd room : ℕ) × (w : kernel.World) × ((kernel.epoll_wait poll_fd room w).0
                  ≡ none))))
      ⊎ ((s : Running os kernel) × (l : Items ℕ ℕ) × (r ≡ returns s)
          × IsServer start (time_after t times s.handled) s.system l)

  serve-Ran :
      (root : Bytes) (q : EventLoop) (es : List (Token × ℕ)) (k : ℕ) (m : System os kernel)
      (l : Items ℕ ℕ)
      → AllInTime t times
      → IsServer start (time_after t times k) m l
      → Ran (
          serve root (stamp times k es) m >>= λ m'.
          returns (record { event_loop = q; system = m'; handled = k + length es }))
  unfolding Ran Served
  serve-Ran root q es k m l in_time h =
      elim (serve-Served (time_after t times k) root (stamp times k es) m l
        (stamp-InTime t times k es in_time) h) [
          | inl bad ↦ rw (bad.0) (inl (refl, inl bad.1))
          | inr (m', l', e, h') ↦ rw (e) (
              inr (
                record { event_loop = q; system = m'; handled = k + length es },
                l',
                refl,
                subst (λ u. IsServer start u m' l') (end_of-stamp t times k es) h',
              ))
        ]

  Ran-continued :
      {A : Type 0} (x : Fallible A) (a : A) (f : A → Fallible (Running os kernel))
      → x ≡ returns a
      → Ran (f a)
      → Ran (x >>= f)
  Ran-continued x a f e h = subst (λ y. Ran (y >>= f)) (sym e) h

  Ran-branch :
      (b : Bool) (x y : Fallible (Running os kernel)) → Ran x → Ran y → Ran (if b then x else y)
  Ran-branch true x y h k = h
  Ran-branch false x y h k = k

  turn-Ran :
      (root : Bytes) (s : Running os kernel) (l : Items ℕ ℕ)
      → AllInTime t times
      → IsServer start (time_after t times s.handled) s.system l
      → Ran (turn root times s)
  unfolding turn hand_over
  turn-Ran root s l in_time h =
      let p = s.event_loop.poller in
      let r = kernel.epoll_wait p.poll_fd (length p.events) s.system.kernel_world in
      elim (Option-cases r.0) [
        | inl failed ↦
            unfold Ran Poller.poll in
            rw (failed)
              (inl (refl, inr (p.poll_fd, length p.events, s.system.kernel_world, failed)))
        | inr (es, came) ↦
            let (q, run, read, perm, ordered, room) = order-tokens s.event_loop es in
            let polled : Poller.poll r.0 p ≡ returns (q, length es) =
              ap (λ a. Poller.poll a p) came ∙ run in
            Ran-continued (Poller.poll r.0 p) (q, length es) _ polled
              (Ran-continued (tokens (record s.event_loop { poller = q }) 0 (length es))
                (seen s.event_loop es) _ read
                (serve-Ran root (record s.event_loop { poller = q }) (order (seen s.event_loop es))
                  s.handled (record s.system { kernel_world = r.1 }) l in_time
                  (record { timed = h.timed; at_most = h.at_most; sound = h.sound })))
      ]

  Ran-bind :
      (r : Fallible (Running os kernel)) (f : Running os kernel → Fallible (Running os kernel))
      → Ran r
      → ((s : Running os kernel) (l : Items ℕ ℕ)
          → IsServer start (time_after t times s.handled) s.system l
          → Ran (f s))
      → Ran (r >>= f)
  unfolding Ran
  Ran-bind r f (inl e) k = inl (rw (e.0) refl, e.1)
  Ran-bind r f (inr (s, l, e, h)) k = subst (λ x. Ran (x >>= f)) (sym e) (k s l h)

  -- Let the invariant of the server hold, as in `serve-Served`, and let the events come one after
  -- the other. After any number of turns of the loop of `run` it holds still, whatever
  -- `epoll_wait` answers, or the loop has panicked: for an error of `epoll_wait`, or for one of
  -- the faults of an event. No event is read from beyond the room of the poller.
  pub run-Served :
      (root : Bytes) (rounds : ℕ) (s : Running os kernel) (l : Items ℕ ℕ)
      → AllInTime t times
      → IsServer start (time_after t times s.handled) s.system l
      → Ran (run root times rounds s)
  unfolding run
  run-Served root zero s l in_time h = unfold Ran in inr (s, l, refl, h)
  run-Served root (suc rounds) s l in_time h =
      Ran-branch s.event_loop.run _ (returns s)
        (Ran-bind (turn root times s) (λ s'. run root times rounds s') (turn-Ran root s l in_time h)
          (λ s' l' h'. run-Served root rounds s' l' in_time h'))
        (unfold Ran in inr (s, l, refl, h))
