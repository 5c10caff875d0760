-- ===== src/Server/Loop.antt =====
-- net/event_loop.rs and server/server.rs: the loop of `run`, with the server as its handler. A turn
-- of it is a `poll` and the events that came. `times` has the circumstances of every event that is
-- ever handed over, and `rounds` the number of turns, since the loop does not end.
use minifto.Common.{
  ℕ, zero, suc, ◌+◌, if◌then◌else◌, List, [], ◌∷◌, Bytes, Fallible, returns, ◌>>=◌, length,
}
use minifto.Os.{Os}
use minifto.Kernel.{Kernel}
use minifto.Poller
use minifto.EventLoop.{EventLoop, Token, tokens, order}
use minifto.Server.{serve}
use minifto.Server.State.{Moment, System}

-- The events, of which the first is number `k` of all, with their circumstances.
abbrev pub stamp : (times : ℕ → Moment) → (k : ℕ) → List (Token × ℕ) → List (Moment × (Token × ℕ))
stamp times k [] = []
stamp times k (e ∷ es) = (times k, e) ∷ stamp times (k + 1) es

-- The loop and its handler, and the number of events that have been handed over.
pub record Running (os : Os) (kernel : Kernel) : Type 0 where
  pub event_loop : EventLoop
  pub system : System os kernel
  pub handled : ℕ

module _ {os : Os} {kernel : Kernel} (root : Bytes) (times : ℕ → Moment) where
  -- The events of one `poll` that has returned, `cnt` of them.
  unfoldable pub hand_over :
      (cnt : ℕ) → EventLoop → System os kernel → ℕ → Fallible (Running os kernel)
  unfolding tokens order serve
  hand_over cnt l m k = tokens l 0 cnt >>= λ es. serve root (stamp times k (order es)) m >>= λ m'.
      returns (record { event_loop = l; system = m'; handled = k + length (order es) })

  unfoldable pub turn : Running os kernel → Fallible (Running os kernel)
  unfolding Poller.poll hand_over
  turn s =
      let p = s.event_loop.poller in
      let r = kernel.epoll_wait p.poll_fd (length p.events) s.system.kernel_world in
      Poller.poll r.0 p >>= λ q.
      hand_over q.1 (record s.event_loop { poller = q.0 }) (record s.system { kernel_world = r.1 })
        s.handled

  -- `run`
  unfoldable pub run : (rounds : ℕ) → Running os kernel → Fallible (Running os kernel)
  unfolding turn
  run zero s = returns s
  run (suc rounds) s = if s.event_loop.run then (turn s >>= λ s'. run rounds s') else returns s
