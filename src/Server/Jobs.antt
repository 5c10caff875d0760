-- ===== src/Server/Jobs.antt =====
-- server/server.rs: the events of the server's thread and the work of the pool, in any order. An
-- event is handled at once, and so is a job, under the mutex of its session, which it poisons if it
-- panics; the `Arc` that the job owns is dropped at its end.
use minifto.Common.{
  ℕ, ◌≡◌, Bool, true, false, List, [], ◌∷◌, ◌++◌, Option, some, Bytes, if◌then◌else◌, returns, none,
  ◌||◌,
}
use minifto.Os.{Os}
use minifto.Kernel.{Kernel}
use minifto.EventLoop.{Token}
use minifto.SortedList.{update}
use minifto.ThreadPool.{ThreadPool, Message, Workers, Status, awake, asleep, busy, died, receive}
use minifto.Server.{serve, run_job}
use minifto.Connection.{is_close, is_hup}
use minifto.Server.Owners.{is_listed, session_of}
use minifto.Server.State.{Slot, Moment, System, drop_session}
use minifto.Server.Served.{At}

-- What a worker is after its job on a session, whose mutex is poisoned or not.
abbrev pub worked : (poisoned : Bool) → Status ℕ
worked true = died
worked false = awake

module _ {os : Os} {kernel : Kernel} where
  abbrev pub set_pool : System os kernel → ThreadPool ℕ → System os kernel
  set_pool m p = record m { server = record m.server { worker_pool = p } }

  abbrev pub set_workers : System os kernel → Workers ℕ → System os kernel
  set_workers m ws = set_pool m (record m.server.worker_pool { workers = ws })

  -- The system with the session `s` and the workers as a job has left them. A session that neither
  -- the list nor another job owns is dropped with the job's `Arc`.
  unfoldable pub after_job :
      System os kernel → (s : ℕ) → Slot os.Sock → Workers ℕ → System os kernel
  unfolding drop_session
  after_job m s slot ws =
      let m' : System os kernel = record (set_workers m ws) { slots = update m.slots s slot } in
      record m' {
        kernel_world =
            if is_listed s m.server.sessions
            then m.kernel_world
            else drop_session m' (some s) m.kernel_world;
      }

  -- The job that an event is to give to the pool: one for the session that the list has for the
  -- descriptor, unless the connection has been closed.
  unfoldable pub submitted : Token → (revents : ℕ) → System os kernel → List ℕ
  unfolding session_of is_close is_hup
  submitted (Token.notify fd) revents m = elim (session_of m.server.sessions fd) [
    | none ↦ []
    | some s ↦ if is_close revents || is_hup revents then [] else s ∷ []
  ]
  submitted (Token.listen fd) revents m = []
  submitted (Token.timer fd) revents m = []

module _ {os : Os} {kernel : Kernel} (file_info : Bytes → os.World → Option Bytes) (fuel : ℕ)
    (root : Bytes) (t0 : ℕ) (start : System os kernel) where
  -- The system that comes of `start` by events and by steps of the workers: the time after the last
  -- event, and the sessions whose jobs have panicked.
  pub data Reach : ℕ → List ℕ → System os kernel → Type 0 where
    begins : Reach t0 [] start
    event :
        {t : ℕ} {bad : List ℕ} {m : System os kernel} (moment : Moment) (token : Token)
        (revents : ℕ) (m' : System os kernel)
        → Reach t bad m
        → At t moment
        → serve root ((moment, (token, revents)) ∷ []) m ≡ returns m'
        → Reach moment.until bad m'
    pops :
        {t : ℕ} {bad : List ℕ} {m : System os kernel} (l r : Workers ℕ) (i : ℕ) (a : Message ℕ)
        (q : List (Message ℕ))
        → Reach t bad m
        → m.server.worker_pool.workers ≡ l ++ (i, awake) ∷ r
        → m.server.worker_pool.queue ≡ a ∷ q
        → Reach t bad (
            set_pool m
              (record m.server.worker_pool { workers = l ++ (i, receive a) ∷ r; queue = q }))
    waits :
        {t : ℕ} {bad : List ℕ} {m : System os kernel} (l r : Workers ℕ) (i : ℕ)
        → Reach t bad m
        → m.server.worker_pool.workers ≡ l ++ (i, awake) ∷ r
        → m.server.worker_pool.queue ≡ []
        → Reach t bad (set_workers m (l ++ (i, asleep) ∷ r))
    wakes :
        {t : ℕ} {bad : List ℕ} {m : System os kernel} (l r : Workers ℕ) (i : ℕ)
        → Reach t bad m
        → m.server.worker_pool.workers ≡ l ++ (i, asleep) ∷ r
        → Reach t bad (set_workers m (l ++ (i, awake) ∷ r))
    job :
        {t : ℕ} {bad : List ℕ} {m : System os kernel} (l r : Workers ℕ) (i s : ℕ)
        (msg : Option Bytes) (world : os.World) (slot : Slot os.Sock)
        → Reach t bad m
        → m.server.worker_pool.workers ≡ l ++ (i, busy s) ∷ r
        → run_job os file_info fuel msg world (m.slots s) ≡ some slot
        → Reach t
            (if slot.poisoned then s ∷ bad else bad)
            (after_job m s slot (l ++ (i, worked slot.poisoned) ∷ r))

module _ {os : Os} {kernel : Kernel} {file_info : Bytes → os.World → Option Bytes} {fuel : ℕ}
    {root : Bytes} {t0 : ℕ} {start : System os kernel} where
  -- The jobs that the events are to give to the pool, one after the other.
  unfoldable pub submissions :
      {t : ℕ} {bad : List ℕ} {m : System os kernel}
      → Reach file_info fuel root t0 start t bad m
      → List ℕ
  unfolding submitted
  submissions Reach.begins = []
  submissions (Reach.event {m = m} moment token revents m' reach at e) =
      submissions reach ++ submitted token revents m
  submissions (Reach.pops l r i a q reach e f) = submissions reach
  submissions (Reach.waits l r i reach e f) = submissions reach
  submissions (Reach.wakes l r i reach e) = submissions reach
  submissions (Reach.job l r i s msg world slot reach e f) = submissions reach
