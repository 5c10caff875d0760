-- ===== src/Kernel.antt =====
-- The system calls of the server, through the crate `nix`. They are a parameter: a world, queries
-- of it, and calls that change it. `false` and `none` are the errors, which the source unwraps.
use minifto.Common.{
  ℕ, Bool, true, false, Option, none, some, List, Bytes, Fallible, returns, panics, if◌then◌else◌,
  unwrap, ◌≡◌, refl,
}
use minifto.Common.Int.{ℤ}

-- The bits of `EpollFlags`.
abbrev pub epoll_in : ℕ
epoll_in = 0x1

abbrev pub epoll_pri : ℕ
epoll_pri = 0x2

abbrev pub epoll_out : ℕ
epoll_out = 0x4

abbrev pub epoll_err : ℕ
epoll_err = 0x8

abbrev pub epoll_hup : ℕ
epoll_hup = 0x10

abbrev pub epoll_et : ℕ
epoll_et = 0x80000000

-- `EpollEvent`: the flags that came, and the number that was given with the descriptor.
pub record EpollEvent : Type 0 where
  pub events : ℕ
  pub «data» : ℕ

pub record Kernel : Type 1 where
  pub World : Type 0
  -- `accept4`, without blocking
  pub accept : ℕ → World → Option ℕ × World
  -- `setsockopt` with `TcpNoDelay` and with `KeepAlive`
  pub no_delay : (sock : ℕ) → (on : Bool) → World → Bool × World
  pub keep_alive : (sock : ℕ) → (on : Bool) → World → Bool × World
  -- `getsockname` and `getpeername`
  pub sockname : ℕ → World → Option Bytes
  pub peername : ℕ → World → Option Bytes
  -- `epoll_create1`; `epoll_wait` without a limit of time, for as many events as the room allows
  pub epoll_create : World → Option ℕ × World
  pub epoll_wait : (poll_fd room : ℕ) → World → Option (List EpollEvent) × World
  -- `epoll_ctl` with `EpollCtlAdd` and `EpollCtlDel`
  pub epoll_add : (fd events : ℕ) → World → Bool × World
  pub epoll_del : ℕ → World → Bool × World
  -- `timerfd_create`, and `timerfd_settime` with an interval of seconds
  pub timer_create : World → Option ℕ × World
  pub timer_set : (fd : ℕ) → (interval : ℤ) → World → Bool × World
  -- `shutdown` and the `write` of a message, whose errors are logged only
  pub shutdown : ℕ → World → World
  pub write : (fd : ℕ) → Bytes → World → World
  -- `open(path, O_RDWR, S_IRUSR)`, `sendfile` with an offset or none, `close`
  pub open_file : Bytes → World → Option ℕ × World
  pub sendfile : (sock fd : ℕ) → (off : Option ℤ) → (size : ℕ) → World → Option ℕ × World
  pub close : ℕ → World → Bool × World
  -- `fcntl` with `F_GETFL`
  pub get_flags : ℕ → World → Option ℤ
  -- The `read` of a timer, whose error is ignored.
  pub read : ℕ → World → World

-- The error of a call is unwrapped.
abbrev pub called : {W : Type 0} → Bool × W → Fallible W
called r = if r.0 then returns r.1 else panics

pub called-panics : {W : Type 0} (r : Bool × W) → called r ≡ panics → r.0 ≡ false
called-panics (true, w) e = cc
called-panics (false, w) e = refl

pub unwrap-panics : {A : Type 0} (o : Option A) → unwrap o ≡ panics → o ≡ none
unwrap-panics none e = refl
unwrap-panics (some a) e = cc
