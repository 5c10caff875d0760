-- ===== src/Server/Startup.antt =====
-- server/server.rs: the server that `run_server` starts, and the turns of its loop.
mod Examples
use minifto.Common.{
  ℕ, ◌≡◌, refl, ap, subst, Bool, true, false, if◌then◌else◌, Option, none, some, [], ◌++◌, Bytes,
  codes, inr, arith, Fallible, returns, panics, ◌>>=◌, unwrap, Returned, Returned-bind,
  Returned-step, Returned-branch,
}
use minifto.Os.{Os}
use minifto.Kernel.{Kernel}
use minifto.Config.{Config}
use minifto.EventLoop
use minifto.EventLoop.{EventLoop}
use minifto.Common.Int.{pos}
use minifto.Text.Decimal.{show}
use minifto.SortedList.Lists.{Lists, new-Lists}
use minifto.SortedList.Keys.{descriptor}
use minifto.TimerList
use minifto.TimerList.Timed.{IsTimed}
use minifto.Utils.{Host, already_running, daemonize}
use minifto.Server.State
use minifto.Server.State.{FtpServer, Moment, System}
use minifto.Server.Served.{IsServer}
use minifto.Server.Admission.{size-IsServer}
use minifto.Server.Loop.{Running, run}
use minifto.Server.Rounds.{AllInTime, Ran, run-Served, time_after}
use minifto.Server.Start.{Started, Memory, load, build, after_fork, prepare, run_server}

module _ {os : Os} {kernel : Kernel} where
  -- A server without a session, that has handled no event.
  record IsNew (s : Running os kernel) : Type 0 where
    empty : Lists s.system.server.sessions.list []
    none_handled : s.handled ≡ 0

  -- Whatever runs is new.
  IfRuns : Started os kernel → Type 0
  IfRuns Started.refused = Unit
  IfRuns Started.exits = Unit
  IfRuns (Started.runs s) = IsNew s

module _ {os : Os} {kernel : Kernel} (host : Host kernel) (memory : Memory os) where
  -- The server that `FtpServer::new` makes has no session.
  HasNone : FtpServer × EventLoop × kernel.World → Type 0
  HasNone r = Lists r.0.sessions.list []

  new-HasNone :
      (config : Config) (l : EventLoop) (w : kernel.World)
      → Returned HasNone (State.new kernel memory.cpus memory.heap config l w)
  unfolding State.new TimerList.new HasNone
  new-HasNone config l w =
      Returned-bind HasNone (EventLoop.add_timer kernel (pos 5) l w) _ (λ r. new-Lists memory.heap)

  build-IsNew :
      (config : Config) (w : kernel.World)
      → Returned (IsNew {os = os} {kernel = kernel}) (build host memory config w)
  unfolding build HasNone
  build-IsNew config w =
      let r = host.listen (config.server_addr ++ codes ":" ++ show config.server_port) w in
      Returned-bind IsNew (unwrap r.0) _ λ listener.
        Returned-bind IsNew (EventLoop.new kernel listener r.1) _ λ l.
          Returned-step HasNone IsNew (State.new kernel memory.cpus memory.heap config l.0 l.1) _
            (new-HasNone config l.0 l.1)
            (λ s none_there. record { empty = none_there; none_handled = refl })

  after_fork-IfRuns :
      (path : Bytes) (d : Option kernel.World)
      → Returned (IfRuns {os = os} {kernel = kernel}) (after_fork host memory path d)
  unfolding after_fork IfRuns
  after_fork-IfRuns path none = tt
  after_fork-IfRuns path (some w) = Returned-bind IfRuns (load host path w) _ λ c.
      Returned-step IsNew IfRuns (build host memory c.0 c.1) _ (build-IsNew c.0 c.1) (λ s new. new)

  prepare-IfRuns :
      (path : Bytes) (w : kernel.World)
      → Returned (IfRuns {os = os} {kernel = kernel}) (prepare host memory path w)
  unfolding prepare IfRuns
  prepare-IfRuns path w = Returned-bind IfRuns (already_running host w) _ λ r.
      Returned-branch IfRuns r.0 (returns Started.refused) _ tt
        (Returned-bind IfRuns (daemonize host r.1) _ (after_fork-IfRuns path))

  -- The invariant holds of a new server at any time.
  IsNew-IsServer : (t : ℕ) (s : Running os kernel) → IsNew s → IsServer s.system t s.system []
  IsNew-IsServer t s new = record {
    timed = record { lists = new.empty; newest = tt; before = tt };
    at_most = inr (omega arith);
    sound = λ p bad. bad;
  }

  -- If the start of the server comes to the loop, then `run_server` enters it with the server that
  -- was prepared, which has no session, and for any number of turns, with the events one after the
  -- other, the invariant of the server holds, or the loop has panicked for a fault or for an error
  -- of `epoll_wait`.
  pub run_server-Ran :
      (root : Bytes) (t : ℕ) (times : ℕ → Moment) (rounds : ℕ) (path : Bytes) (w : kernel.World)
      (s : Running os kernel)
      → AllInTime t times
      → prepare host memory path w ≡ returns (Started.runs s)
      → (run_server host memory root times rounds path w
          ≡ (run root times rounds s >>= λ s'. returns (Started.runs s')))
        × (TimerList.size s.system.server.sessions ≡ 0)
        × Ran s.system t times (run root times rounds s)
  unfolding run_server IfRuns
  run_server-Ran root t times rounds path w s in_time e =
      let new : IsNew s = subst (Returned IfRuns) e (prepare-IfRuns path w) in
      let start : IsServer s.system (time_after t times s.handled) s.system [] =
        IsNew-IsServer (time_after t times s.handled) s new in
      (
        rw (e) refl,
        size-IsServer (time_after t times s.handled) s.system [] start,
        run-Served s.system t times root rounds s [] in_time start,
      )
