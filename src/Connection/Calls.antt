-- ===== src/Connection/Calls.antt =====
-- net/connection.rs: what a connection asks of the kernel.
use minifto.Common.{
  ℕ, ◌+◌, Option, none, some, Bytes, Fallible, returns, ◌>>=◌, unwrap, if◌then◌else◌,
}
use minifto.Common.Int.{ℤ, is_negative}
use minifto.Kernel.{Kernel, called, epoll_in, epoll_out, epoll_err, epoll_hup, epoll_et}
use minifto.EventLoop
use minifto.Session.State.{closed}
use minifto.Connection.{Connection}

module _ (kernel : Kernel) where
  unfoldable pub register_read : Connection → kernel.World → Fallible kernel.World
  unfolding EventLoop.reregister
  register_read c w =
      EventLoop.reregister kernel c.sock (epoll_hup + epoll_err + epoll_out + epoll_in + epoll_et) w

  unfoldable pub shutdown : Connection → kernel.World → Connection × kernel.World
  shutdown c w = (record c { state = closed }, kernel.shutdown c.sock w)

  unfoldable pub deregister : Connection → kernel.World → Fallible (Connection × kernel.World)
  unfolding EventLoop.deregister shutdown
  deregister c w = EventLoop.deregister kernel c.sock w >>= λ w'. returns (shutdown c w')

  unfoldable pub send : Bytes → Connection → kernel.World → kernel.World
  send buf c w = kernel.write c.sock buf w

  -- `sendfile` from the offset, or from the position of the file where none is given.
  send_open :
      (fd : ℕ)
      → (off : Option ℤ) → (size : ℕ) → Connection
      → kernel.World
      → Fallible (ℕ × kernel.World)
  send_open fd off size c w =
      let r = kernel.sendfile c.sock fd off size w in unwrap r.0 >>= λ n. returns (n, r.1)

  -- `send_file`: a file that is named is opened and closed, and `fd` is then ignored.
  unfoldable pub send_file :
      (file : Option Bytes)
      → (fd : ℕ) → (off : Option ℤ) → (size : ℕ) → Connection
      → kernel.World
      → Fallible (Option ℕ × kernel.World)
  unfolding send_open
  send_file (some file) fd off size c w =
      let r = kernel.open_file file w in
      unwrap r.0 >>= λ opened. send_open opened off size c r.1 >>= λ n.
      called (kernel.close opened n.1) >>= λ w'. returns (some n.0, w')
  send_file none fd off size c w = send_open fd off size c w >>= λ n. returns (some n.0, n.1)

  -- `Drop`: `fcntl` gives a number that is not negative, or an error that is unwrapped.
  unfoldable pub drop : Connection → kernel.World → Fallible kernel.World
  unfolding shutdown
  drop c w = unwrap (kernel.get_flags c.sock w) >>= λ flags.
      returns (if is_negative flags then (shutdown c w).1 else w)
