-- ===== src/Socket.antt =====
-- net/socket.rs and net/acceptor.rs: the sockets of the server, and a connection that is accepted.
-- Every error of a call is unwrapped, but that of `connect`, which is only logged.
use minifto.Common.{ℕ, Bool, true, false, Option, Bytes, Fallible, returns, ◌>>=◌, unwrap}
use minifto.Kernel.{Kernel, called}

-- The calls that make a socket. An address is a parameter: `InetAddr` of `SocketAddr::from_str`.
pub record Sockets (kernel : Kernel) : Type 1 where
  pub Addr : Type 0
  pub from_str : Bytes → Option Addr
  -- `socket` with `SOCK_CLOEXEC`, and without blocking or not
  pub socket : (nonblocking : Bool) → kernel.World → Option ℕ × kernel.World
  pub bind : (sock : ℕ) → Addr → kernel.World → Bool × kernel.World
  pub connect : (sock : ℕ) → Addr → kernel.World → kernel.World
  pub reuse_addr : (sock : ℕ) → (on : Bool) → kernel.World → Bool × kernel.World
  pub reuse_port : (sock : ℕ) → (on : Bool) → kernel.World → Bool × kernel.World

module _ (kernel : Kernel) where
  unfoldable pub set_no_delay : (on : Bool) → (sock : ℕ) → kernel.World → Fallible kernel.World
  set_no_delay on sock w = called (kernel.no_delay sock on w)

  unfoldable pub set_keep_alive : (on : Bool) → (sock : ℕ) → kernel.World → Fallible kernel.World
  set_keep_alive on sock w = called (kernel.keep_alive sock on w)

  -- `Socket::accept`
  unfoldable pub accept : (sockfd : ℕ) → kernel.World → Fallible (ℕ × kernel.World)
  accept sockfd w = let r = kernel.accept sockfd w in unwrap r.0 >>= λ connfd. returns (connfd, r.1)

  -- `Acceptor::accept`
  unfoldable pub accept_client : (listen_fd : ℕ) → kernel.World → Fallible (ℕ × kernel.World)
  unfolding accept set_no_delay set_keep_alive
  accept_client listen_fd w = accept listen_fd w >>= λ r.
      set_no_delay true r.0 r.1 >>= λ w'. set_keep_alive true r.0 w' >>= λ w''. returns (r.0, w'')

-- The acceptor of an address: the server does not use it, since it listens by `TcpListener`.
pub record Acceptor : Type 0 where
  pub accept_socket : ℕ
  pub listening : Bool

module _ (kernel : Kernel) (sockets : Sockets kernel) where
  unfoldable pub inet_addr : Bytes → Fallible sockets.Addr
  inet_addr addr = unwrap (sockets.from_str addr)

  -- `Socket::bind`
  unfoldable pub bind : (addr : Bytes) → kernel.World → Fallible (ℕ × kernel.World)
  unfolding inet_addr
  bind addr w =
      let r = sockets.socket true w in
      unwrap r.0 >>= λ sockfd. inet_addr addr >>= λ sock_addr.
      called (sockets.bind sockfd sock_addr r.1) >>= λ w'. returns (sockfd, w')

  -- `Socket::connect`: the socket blocks, and it is returned whether it is connected or not.
  unfoldable pub connect : (addr : Bytes) → kernel.World → Fallible (ℕ × kernel.World)
  unfolding inet_addr
  connect addr w =
      let r = sockets.socket false w in
      unwrap r.0 >>= λ sockfd.
      inet_addr addr >>= λ sock_addr. returns (sockfd, sockets.connect sockfd sock_addr r.1)

  unfoldable pub set_reuse_addr : (on : Bool) → (sock : ℕ) → kernel.World → Fallible kernel.World
  set_reuse_addr on sock w = called (sockets.reuse_addr sock on w)

  unfoldable pub set_reuse_port : (on : Bool) → (sock : ℕ) → kernel.World → Fallible kernel.World
  set_reuse_port on sock w = called (sockets.reuse_port sock on w)

  -- `Acceptor::new`
  unfoldable pub new : (addr : Bytes) → kernel.World → Fallible (Acceptor × kernel.World)
  unfolding bind set_reuse_addr set_reuse_port
  new addr w = bind addr w >>= λ r. set_reuse_addr true r.0 r.1 >>= λ w'.
      set_reuse_port true r.0 w' >>= λ w''.
      returns (record { accept_socket = r.0; listening = true }, w'')
