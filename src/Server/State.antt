-- ===== src/Server/State.antt =====
-- server/server.rs: the state of the server, and the sessions that it gives up.
use minifto.Common.{
  ℕ, Option, none, some, List, [], ◌∷◌, if◌then◌else◌, Bool, Fallible, returns, ◌>>=◌,
}
use minifto.Common.Int.{pos}
use minifto.Os.{Os}
use minifto.Kernel.{Kernel}
use minifto.Config.{Config}
use minifto.Connection.{Connection}
use minifto.EventLoop
use minifto.EventLoop.{EventLoop}
use minifto.Session.State.{Session}
use minifto.SortedList.{Heap}
use minifto.SortedList.Keys.{descriptor}
use minifto.TimerList
use minifto.TimerList.{TimerList}
use minifto.ThreadPool
use minifto.ThreadPool.{ThreadPool}
use minifto.Server.Owners.{is_owned, session_of}

-- The circumstances of an event: its time, the readings of the clock while it is handled, the
-- latest of them, and the choice of `notify_one`.
pub record Moment : Type 0 where
  pub now : ℕ
  pub clock : ℕ → ℕ
  pub until : ℕ
  pub choice : ℕ

-- `DEFAULT_TIME_OUT`
abbrev pub default_time_out : ℕ
default_time_out = 90

-- An `Arc<Mutex<Session>>` is a number, and its mutex a slot: the connection and the state of the
-- session, and whether a panic has poisoned the mutex.
pub record Slot (Sock : Type 0) : Type 0 where
  pub conn : Connection
  pub session : Session Sock
  pub poisoned : Bool

pub record FtpServer : Type 0 where
  pub worker_pool : ThreadPool ℕ
  pub sessions : TimerList ℕ ℕ
  pub config : Config

pub record System (os : Os) (kernel : Kernel) : Type 0 where
  pub server : FtpServer
  pub slots : ℕ → Slot os.Sock
  pub fresh : ℕ
  pub kernel_world : kernel.World

-- `FtpServer::new`, which adds a timer of five seconds to the event loop; the copy of the loop that
-- the server keeps is not used.
unfoldable pub new :
    (kernel : Kernel)
    → (cpus : ℕ) → Heap ℕ (ℕ × ℕ)
    → Config
    → EventLoop
    → kernel.World
    → Fallible (FtpServer × EventLoop × kernel.World)
unfolding EventLoop.add_timer
new kernel cpus heap config l w = EventLoop.add_timer kernel (pos 5) l w >>= λ r. returns (
  record {
    worker_pool = ThreadPool.new cpus 0;
    sessions = TimerList.new heap default_time_out;
    config = config;
  },
  r.0,
  r.1,
)

module _ {os : Os} {kernel : Kernel} where
  abbrev pub set_sessions : System os kernel → TimerList ℕ ℕ → System os kernel
  set_sessions m t = record m { server = record m.server { sessions = t } }

  -- The `Drop` of a session shuts its connection down. It comes when the list gives up the session,
  -- unless a job owns it still.
  unfoldable pub drop_session : System os kernel → Option ℕ → kernel.World → kernel.World
  drop_session m none w = w
  drop_session m (some s) w =
      if is_owned s m.server.worker_pool then w else kernel.shutdown (m.slots s).conn.sock w

  -- The sessions that stand in one list, under these keys, and not in the other.
  unfoldable pub drop_sessions :
      System os kernel → (before after : TimerList ℕ ℕ) → List (ℕ × ℕ) → kernel.World → kernel.World
  unfolding drop_session
  drop_sessions m before after [] w = w
  drop_sessions m before after ((fd, p) ∷ keys) w =
      drop_sessions m before after keys
        (if TimerList.contains after fd then w else drop_session m (session_of before fd) w)
