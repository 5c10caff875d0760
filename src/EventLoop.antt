-- ===== src/EventLoop.antt =====
-- net/event_loop.rs: the descriptors that are registered, the kinds of events, and the order in which
-- `run` hands them over. The loop itself is Server.run, since it calls the handlers of the server.
pub mod Order
use minifto.Common.{
  ℕ, zero, suc, ◌+◌, Bool, true, false, ◌||◌, none, some, List, [], ◌∷◌, ◌++◌, ◌==◌, if◌then◌else◌,
  Fallible, returns, ◌>>=◌, unwrap,
}
use minifto.Common.Int.{ℤ}
use minifto.Kernel.{Kernel, called, epoll_in, epoll_out, epoll_hup, epoll_et}
use minifto.Poller
use minifto.Poller.{Poller, EpollOp, event}

pub data Token : Type 0 where
  listen notify timer : ℕ → Token

-- `timers` holds the descriptors of the timers; `listeners` is never filled.
pub record EventLoop : Type 0 where
  pub listener : ℕ
  pub listeners : List ℕ
  pub timers : List ℕ
  pub poller : Poller
  pub run : Bool

abbrev has : ℕ → List ℕ → Bool
has fd [] = false
has fd (t ∷ ts) = (t == fd) || has fd ts

unfoldable pub is_listen_event : EventLoop → ℕ → Bool
is_listen_event l fd = l.listener == fd

unfoldable pub is_timer_event : EventLoop → ℕ → Bool
is_timer_event l fd = has fd l.timers

-- What `run` makes of a descriptor that has an event.
unfoldable pub token : EventLoop → ℕ → Token
unfolding is_listen_event is_timer_event
token l fd =
    if is_listen_event l fd
    then Token.listen fd
    else if is_timer_event l fd
    then Token.timer fd
    else Token.notify fd

-- The loop of `run` over the events of one `poll`: those from `i` on, `count` of them.
unfoldable pub tokens : EventLoop → (i count : ℕ) → Fallible (List (Token × ℕ))
unfolding token event
tokens l i zero = returns []
tokens l i (suc count) = event i l.poller >>= λ e.
    tokens l (i + 1) count >>= λ rest. returns ((token l e.0, e.1.events) ∷ rest)

-- The order in which `run` hands the events of one `poll` over: the listener's first, then those of
-- the sessions, then those of the timers.
abbrev pub select : (Token → Bool) → List (Token × ℕ) → List (Token × ℕ)
select f [] = []
select f (e ∷ es) = if f e.0 then e ∷ select f es else select f es

abbrev pub is_listen : Token → Bool
is_listen (Token.listen fd) = true
is_listen _ = false

abbrev pub is_notify : Token → Bool
is_notify (Token.notify fd) = true
is_notify _ = false

abbrev pub is_timer : Token → Bool
is_timer (Token.timer fd) = true
is_timer _ = false

unfoldable pub order : List (Token × ℕ) → List (Token × ℕ)
order es = select is_listen es ++ select is_notify es ++ select is_timer es

module _ (kernel : Kernel) where
  unfoldable pub new : (listener : ℕ) → kernel.World → Fallible (EventLoop × kernel.World)
  unfolding Poller.new Poller.register
  new listener w = Poller.new kernel w >>= λ p.
      Poller.register kernel listener (epoll_in + epoll_et) p.1 >>= λ w'.
      returns
        (record { listener = listener; listeners = []; timers = []; poller = p.0; run = true }, w')

  unfoldable pub register : (listener interest : ℕ) → kernel.World → Fallible kernel.World
  unfolding Poller.register
  register listener interest w = Poller.register kernel listener interest w

  unfoldable pub register_listen : (listener : ℕ) → kernel.World → Fallible kernel.World
  unfolding register
  register_listen listener w = register listener (epoll_hup + epoll_out + epoll_in + epoll_et) w

  unfoldable pub reregister : (fd interest : ℕ) → kernel.World → Fallible kernel.World
  unfolding Poller.update
  reregister fd interest w = Poller.update kernel EpollOp.epoll_ctl_add fd (some interest) w

  unfoldable pub deregister : (fd : ℕ) → kernel.World → Fallible kernel.World
  unfolding Poller.update
  deregister fd w = Poller.update kernel EpollOp.epoll_ctl_del fd none w

  unfoldable pub add_timer :
      (interval : ℤ) → EventLoop → kernel.World → Fallible (EventLoop × kernel.World)
  unfolding Poller.register
  add_timer interval l w =
      let r = kernel.timer_create w in
      unwrap r.0 >>= λ timer_fd. called (kernel.timer_set timer_fd interval r.1) >>= λ w'.
      Poller.register kernel timer_fd (epoll_in + epoll_et) w' >>= λ w''.
      returns (record l { timers = timer_fd ∷ l.timers }, w'')
