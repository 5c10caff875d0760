-- ===== src/Server.antt =====
-- server/server.rs: the acceptance of connections, the events of the sessions, and the timer. The
-- kernel's answers are a parameter, and so are the readings of the clock, the thread that
-- `notify_one` wakes, and the messages that a worker reads.
pub mod Owners
pub mod State
pub mod Served
pub mod Admission
pub mod Invariant
pub mod Notify
pub mod Jobs
pub mod Pooled
pub mod Ran
mod Interleaving
pub mod Loop
pub mod Start
mod Startup
mod Rounds
mod Examples
use minifto.Common.{
  ℕ, ◌+◌, Bool, true, false, ◌||◌, Option, none, some, List, [], ◌∷◌, ltb, ◌==◌, if◌then◌else◌,
  Bytes, Fallible, returns, panics, ◌>>=◌,
}
use minifto.Os.{Os}
use minifto.Kernel.{Kernel}
use minifto.Socket
use minifto.Connection
use minifto.Connection.{Connection, is_close, is_hup, set_revents}
use minifto.Connection.Calls
use minifto.Session.State as SessionState
use minifto.Session.State.{Session, done, panicked, out_of_fuel}
use minifto.EventLoop
use minifto.EventLoop.{Token}
use minifto.Session.Dispatch.{handle_command}
use minifto.SortedList.{update}
use minifto.SortedList.Keys.{descriptor}
use minifto.TimerList
use minifto.ThreadPool
use minifto.Server.Owners.{session_of}
use minifto.Server.State.{Moment, Slot, System, set_sessions, drop_session, drop_sessions}

module _ {os : Os} {kernel : Kernel} where
  -- `EventLoop::deregister`
  unfoldable pub deregister : ℕ → System os kernel → Fallible (System os kernel)
  unfolding EventLoop.deregister
  deregister fd m =
      EventLoop.deregister kernel fd m.kernel_world >>= λ w. returns (record m { kernel_world = w })

  -- The session of a new connection, in a new mutex; `root` is the directory of `Session::new`.
  unfoldable pub add_session :
      (root : Bytes)
      → Moment
      → (fd : ℕ) → Connection
      → System os kernel
      → Fallible (System os kernel)
  add_session root moment fd conn m =
      let slot : Slot os.Sock = record {
        conn = conn;
        session = SessionState.new root m.server.config;
        poisoned = false;
      } in
      TimerList.insert moment.now m.server.sessions fd m.fresh >>= λ t.
      returns (record (set_sessions m t) {
        slots = update m.slots m.fresh slot;
        fresh = m.fresh + 1;
        kernel_world = drop_session m (session_of m.server.sessions fd) m.kernel_world;
      })

  -- `self.config.max_clients > self.sessions.len() || self.config.max_clients == 0`
  abbrev pub admits : System os kernel → Bool
  admits m =
      ltb (TimerList.size m.server.sessions) m.server.config.max_clients
      || (m.server.config.max_clients == 0)

  -- `ready` with a connection, and with the descriptor of one.
  unfoldable pub admit :
      (root : Bytes)
      → Moment
      → (fd : ℕ) → Connection
      → System os kernel
      → Fallible (System os kernel)
  unfolding Calls.register_read Calls.shutdown add_session
  admit root moment fd conn m =
      if admits m
      then (Calls.register_read kernel conn m.kernel_world >>= λ w.
          add_session root moment fd conn (record m { kernel_world = w }))
      else returns (record m { kernel_world = (Calls.shutdown kernel conn m.kernel_world).1 })

  unfoldable pub connect :
      (root : Bytes) → Moment → (fd : ℕ) → System os kernel → Fallible (System os kernel)
  unfolding admit
  connect root moment fd m =
      Connection.new fd (kernel.sockname fd m.kernel_world) (kernel.peername fd m.kernel_world)
      >>= λ conn. admit root moment fd conn m

  -- `ready`
  unfoldable pub ready :
      (root : Bytes) → Moment → Token → System os kernel → Fallible (System os kernel)
  unfolding Socket.accept_client connect
  ready root moment (Token.listen listen_fd) m =
      Socket.accept_client kernel listen_fd m.kernel_world >>= λ r.
      connect root moment r.0 (record m { kernel_world = r.1 })
  ready root moment _ m = returns m

  -- The session of a connection that the peer has closed is removed.
  unfoldable pub hang_up : (fd : ℕ) → System os kernel → Fallible (System os kernel)
  unfolding deregister
  hang_up fd m = TimerList.remove m.server.sessions fd >>= λ r.
      deregister fd
        (record (set_sessions m r.0) { kernel_world = drop_session m r.1 m.kernel_world })

  -- A worker is given the session.
  unfoldable pub submit : Moment → (s : ℕ) → System os kernel → System os kernel
  submit moment s m = record m {
    server = record m.server {
      worker_pool = ThreadPool.execute moment.choice s m.server.worker_pool;
    };
  }

  -- `s.lock().unwrap().set_revents(&revents)` of a mutex that is not poisoned.
  unfoldable pub write_revents : (revents s : ℕ) → System os kernel → System os kernel
  write_revents revents s m =
      let slot : Slot os.Sock = m.slots s in
      record m { slots = update m.slots s (record slot { conn = set_revents revents slot.conn }) }

  -- What `notify` does with the session `s`; `lock().unwrap()` panics if the mutex is poisoned.
  unfoldable pub notify_session :
      Moment → (fd revents s : ℕ) → System os kernel → Fallible (System os kernel)
  unfolding hang_up submit write_revents
  notify_session moment fd revents s m =
      if (m.slots s).poisoned
      then panics
      else (if is_close revents || is_hup revents
          then hang_up fd (write_revents revents s m)
          else returns (submit moment s (write_revents revents s m)))

  -- The timer's event.
  unfoldable pub remove_idle : Moment → (fd : ℕ) → System os kernel → Fallible (System os kernel)
  unfolding drop_sessions
  remove_idle moment fd m =
      TimerList.remove_idle (TimerList.size m.server.sessions + 1) moment.clock m.server.sessions
      >>= λ r. elim r [
        | none ↦ panics
        | some t ↦
            let dropped =
              drop_sessions m m.server.sessions t m.server.sessions.list.map m.kernel_world in
            returns (record (set_sessions m t) { kernel_world = kernel.read fd dropped })
      ]

  -- `notify`
  unfoldable pub notify :
      Moment → Token → (revents : ℕ) → System os kernel → Fallible (System os kernel)
  unfolding deregister notify_session remove_idle
  notify moment (Token.notify fd) revents m = TimerList.get moment.now m.server.sessions fd >>= λ r.
      elim r.1 [
        | none ↦ deregister fd (set_sessions m r.0)
        | some s ↦ notify_session moment fd revents s (set_sessions m r.0)
      ]
  notify moment (Token.timer fd) revents m = remove_idle moment fd m
  notify moment (Token.listen fd) revents m = returns m

  -- The handlers on events, in the order in which they are handed over.
  unfoldable pub serve :
      (root : Bytes) → List (Moment × (Token × ℕ)) → System os kernel → Fallible (System os kernel)
  unfolding ready notify
  serve root [] m = returns m
  serve root ((moment, (Token.listen fd, revents)) ∷ es) m =
      ready root moment (Token.listen fd) m >>= λ m'. serve root es m'
  serve root ((moment, (t, revents)) ∷ es) m = notify moment t revents m >>= λ m'. serve root es m'

module _ (os : Os) where
  -- The job of a worker: `s.lock().unwrap().handle_command()`. A panic poisons the mutex.
  unfoldable pub run_job :
      (file_info : Bytes → os.World → Option Bytes)
      → (fuel : ℕ) → (msg : Option Bytes) → os.World
      → Slot os.Sock
      → Option (Slot os.Sock)
  run_job file_info fuel msg world slot =
      if slot.poisoned
      then some slot
      else (elim (handle_command {os = os} file_info fuel msg
          (record { session = slot.session; world = world; sent = [] })) [
            | done m ↦ some (record slot { session = m.session })
            | panicked m ↦ some (record slot { session = m.session; poisoned = true })
            | out_of_fuel ↦ none
          ])
