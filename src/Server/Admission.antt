-- ===== src/Server/Admission.antt =====
-- server/server.rs: `ready` keeps the number of the sessions within its limit.
use minifto.Common.{
  ℕ, suc, ◌+◌, ◌≤◌, ◌≡◌, true, ◌∷◌, length, ◌==◌, Bytes, Bool-cases, Option-cases, inl, inr, ◌⊎◌,
  arith, panics,
}
use minifto.Os.{Os}
use minifto.Connection
use minifto.Connection.{Connection, is_close, is_hup}
use minifto.Connection.Calls
use minifto.Kernel.{Kernel, called-panics, epoll_hup, epoll_err, epoll_in, epoll_out, epoll_et}
use minifto.Socket
use minifto.EventLoop
use minifto.Poller
use minifto.EventLoop.{Token}
use minifto.SortedList.{erase}
use minifto.SortedList.Keys.{descriptor}
use minifto.SortedList.Lists.{size-Lists}
use minifto.TimerList
use minifto.TimerList.{TimerList}
use minifto.TimerList.Timed.{Items, insert-IsTimed, later-IsTimed, length-erase_le}
use minifto.Server.State.{Moment, System}
use minifto.Server.{ready, connect, admit, add_session, admits}
use minifto.Server.Served.{
  Fault, Sound-update, At, IsServer, Served, settled, continued, either, later,
}

module _ {os : Os} {kernel : Kernel} where
  -- A connection that is accepted leaves the number of the sessions within the limit.
  room :
      (m : System os kernel) (n : ℕ) (k : ℕ)
      → TimerList.size m.server.sessions ≡ n
      → admits m ≡ true
      → k ≤ n
      → (m.server.config.max_clients ≡ 0) ⊎ (suc k ≤ m.server.config.max_clients)
  room m n k len ok less = elim (Bool-cases (m.server.config.max_clients == 0)) [
    | inl e ↦ inl (ground (arith, e))
    | inr e ↦ inr (ground (arith, e, ok, len))
  ]

-- What panics `Acceptor::accept`.
accept_client-panics :
    (kernel : Kernel) (os : Os) (start : System os kernel) (fd : ℕ) (w : kernel.World)
    → Socket.accept_client kernel fd w ≡ panics
    → Fault start
unfolding Socket.accept_client Socket.accept Socket.set_no_delay Socket.set_keep_alive
accept_client-panics kernel os start fd w e = elim (Option-cases (kernel.accept fd w).0) [
  | inl none_there ↦ Fault.accept_fails fd w none_there
  | inr (sock, found) ↦
      let w1 = (kernel.accept fd w).1 in
      let w2 = (kernel.no_delay sock true w1).1 in
      elim (Bool-cases (kernel.no_delay sock true w1).0) [
        | inr bad ↦ Fault.option_fails sock w1 (inl bad)
        | inl good ↦ elim (Bool-cases (kernel.keep_alive sock true w2).0) [
          | inr bad ↦ Fault.option_fails sock w2 (inr bad)
          | inl fine ↦ ground (arith, e, found, good, fine)
        ]
      ]
]

module _ {os : Os} {kernel : Kernel} {start : System os kernel} where
  pub size-IsServer :
      (t : ℕ) (m : System os kernel) (l : Items ℕ ℕ)
      → IsServer start t m l
      → TimerList.size m.server.sessions ≡ length l
  unfolding TimerList.size
  size-IsServer t m l h = size-Lists m.server.sessions.list l h.timed.lists

  add_session-Served :
      (t : ℕ) (root : Bytes) (moment : Moment) (fd : ℕ) (conn : Connection) (m : System os kernel)
      (l : Items ℕ ℕ)
      → At t moment
      → IsServer start t m l
      → admits m ≡ true
      → Served start moment.until (add_session root moment fd conn m)
  unfolding add_session
  add_session-Served t root moment fd conn m l at h ok =
      let (s, run, timed) =
        insert-IsTimed t moment.now m.server.sessions l fd m.fresh h.timed at.0 in
      continued start moment.until _ s _ run (
        settled moment.until _ ((fd, (moment.now, m.fresh)) ∷ erase fd l) (record {
          timed = later-IsTimed moment.now moment.until s _ at.2 timed;
          at_most =
              room m (length l) (length (erase fd l)) (size-IsServer t m l h) ok
                (length-erase_le fd l);
          sound = Sound-update start m.slots m.fresh _ h.sound (λ bad. cc);
        }))

  admit-Served :
      (t : ℕ) (root : Bytes) (moment : Moment) (fd : ℕ) (conn : Connection) (m : System os kernel)
      (l : Items ℕ ℕ)
      → At t moment
      → IsServer start t m l
      → Served start moment.until (admit root moment fd conn m)
  unfolding admit Calls.register_read EventLoop.reregister Poller.update Calls.shutdown
  admit-Served t root moment fd conn m l at h = elim (Bool-cases (admits m)) [
    | inl ok ↦ rw (ok) (
        either moment.until (Calls.register_read kernel conn m.kernel_world)
          (λ w. add_session root moment fd conn (record m { kernel_world = w }))
          (λ e.
            Fault.add_fails conn.sock (epoll_hup + epoll_err + epoll_out + epoll_in + epoll_et)
              m.kernel_world (called-panics _ e))
          (λ w.
            add_session-Served t root moment fd conn (record m { kernel_world = w }) l at
              (record { timed = h.timed; at_most = h.at_most; sound = h.sound }) ok))
    | inr full ↦ rw (full) (
        settled moment.until (record m { kernel_world = kernel.shutdown conn.sock m.kernel_world })
          l
          (later t moment.until
            (record m { kernel_world = kernel.shutdown conn.sock m.kernel_world }) l
            (omega (arith, at.0, at.2))
            (record { timed = h.timed; at_most = h.at_most; sound = h.sound })))
  ]

  pub ready-Served :
      (t : ℕ) (root : Bytes) (moment : Moment) (fd : ℕ) (m : System os kernel) (l : Items ℕ ℕ)
      → At t moment
      → IsServer start t m l
      → Served start moment.until (ready root moment (Token.listen fd) m)
  unfolding ready connect
  ready-Served t root moment listen_fd m l at h =
      either moment.until (Socket.accept_client kernel listen_fd m.kernel_world)
        (λ r. connect root moment r.0 (record m { kernel_world = r.1 }))
        (λ e. accept_client-panics kernel os start listen_fd m.kernel_world e)
        (λ r.
          let m1 : System os kernel = record m { kernel_world = r.1 } in
          either moment.until
            (Connection.new r.0 (kernel.sockname r.0 r.1) (kernel.peername r.0 r.1))
            (λ conn. admit root moment r.0 conn m1) (λ e. Fault.address_fails r.0 r.1 e)
            (λ conn.
              admit-Served t root moment r.0 conn m1 l at
                (record { timed = h.timed; at_most = h.at_most; sound = h.sound })))
