-- ===== src/Poller.antt =====
-- net/poller.rs: the room for the events of one `epoll_wait`, and the registrations.
use minifto.Common.{
  ℕ, ◌==◌, ◌%◌, ◌^◌, Option, none, some, List, ◌++◌, if◌then◌else◌, Fallible, returns, panics,
  ◌>>=◌, unwrap, length, drop, replicate, get_elem?,
}
use minifto.Common.Int.{is_negative}
use minifto.Kernel.{Kernel, EpollEvent, called}

pub data EpollOp : Type 0 where
  epoll_ctl_add epoll_ctl_del : EpollOp

abbrev pub event_size : ℕ
event_size = 1024

-- `EpollEvent::new(EpollFlags::empty(), 0)`
abbrev pub no_event : EpollEvent
no_event = record { events = 0; «data» = 0 }

pub record Poller : Type 0 where
  pub events : List EpollEvent
  pub poll_fd : ℕ

-- `event`: the descriptor is `event.data() as i32`, the lowest 32 bits, since a descriptor that was
-- registered is below `2 ^ 31`.
unfoldable pub event : (i : ℕ) → Poller → Fallible (ℕ × EpollEvent)
event i p = unwrap (get_elem? p.events i) >>= λ e. returns (e.«data» % 2 ^ 32, e)

-- `poll`, with the answer of `epoll_wait`, whose events stand in front of what the room held. A
-- room that has been filled is doubled.
unfoldable pub poll : (answer : Option (List EpollEvent)) → Poller → Fallible (Poller × ℕ)
poll answer p = unwrap answer >>= λ es.
    let num_events = length es in
    let events = es ++ drop num_events p.events in
    returns (
      (if num_events == 0
          then p
          else if num_events == length events
          then record p { events = events ++ replicate (length events) no_event }
          else record p { events = events }),
      num_events,
    )

module _ (kernel : Kernel) where
  unfoldable pub new : kernel.World → Fallible (Poller × kernel.World)
  new w =
      let r = kernel.epoll_create w in
      unwrap r.0 >>= λ poll_fd.
      returns (record { events = replicate event_size no_event; poll_fd = poll_fd }, r.1)

  -- `register`, on the poller's epoll instance, the only one that there is.
  unfoldable pub register : (fd interest : ℕ) → kernel.World → Fallible kernel.World
  register fd interest w = called (kernel.epoll_add fd interest w)

  -- `update`; to add nothing is `EINVAL`, which is unwrapped.
  unfoldable pub update :
      EpollOp → (fd : ℕ) → (event : Option ℕ) → kernel.World → Fallible kernel.World
  update EpollOp.epoll_ctl_add fd none w = panics
  update EpollOp.epoll_ctl_add fd (some interest) w = called (kernel.epoll_add fd interest w)
  update EpollOp.epoll_ctl_del fd given w = called (kernel.epoll_del fd w)

  -- `Drop`: `fcntl` gives a number that is not negative, or an error that is unwrapped.
  unfoldable pub drop_poller : Poller → kernel.World → Fallible kernel.World
  drop_poller p w = unwrap (kernel.get_flags p.poll_fd w) >>= λ flags.
      if is_negative flags then called (kernel.close p.poll_fd w) else returns w
