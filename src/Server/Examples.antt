-- ===== src/Server/Examples.antt =====
-- server/server.rs: the theorems at a server with one session, or none.
use minifto.Common.{
  ℕ, zero, suc, ◌+◌, ◌≤◌, ◌≡◌, refl, inl, true, false, none, some, List, length, [], ◌∷◌, ◌++◌,
  Bytes, codes, arith, returns, panics,
}
use minifto.Buffer
use minifto.Codec.{decode_command}
use minifto.Cmd.Parse.{parse}
use minifto.Cmd.Keyword.{keyword}
use minifto.Cmd.Port.{extract_port, field}
use minifto.Text.Decimal.{parse_unsigned}
use minifto.Text.Utf8.{to_ascii_uppercase, from_utf8_lossy, from_utf8}
use minifto.Text.Split.{find_crlf, split}
use minifto.Connection.{is_close, is_hup}
use mathlib.Core.List.{Perm}
use minifto.Common.Int.{pos}
use minifto.Poller.{Poller, poll, no_event}
use minifto.EventLoop.{EventLoop, Token, tokens, order}
use minifto.Session.State
use minifto.Session.Examples.{disk, info, config}
use minifto.SortedList.{lookup, erase, update}
use minifto.SortedList.Keys.{descriptor}
use minifto.SortedList.Examples.{seconds, one_session, first}
use minifto.ThreadPool.{execute}
use minifto.ThreadPool
use minifto.TimerList.{TimerList}
use minifto.TimerList.Timed.{IsTimed}
use minifto.Kernel.{Kernel, EpollEvent}
use minifto.EventLoop.Order.{order-tokens, seen, IsOrdered}
use minifto.Server.{notify, run_job}
use minifto.Server.State.{Moment, Slot, System}
use minifto.Server.Loop.{run}
use minifto.Server.Rounds.{AllInTime, Ran, run-Served}
use minifto.Server.Served.{IsServer, Served}
use minifto.Server.Notify.{notify-submit, notify-run_job}

abbrev mixed : List EpollEvent
mixed =
    record { events = 1; «data» = 6 }
    ∷ record { events = 1; «data» = 4 }
    ∷ record { events = 1; «data» = 3 }
    ∷ []

-- Every connection has the descriptor 5, every call is done, and `epoll_wait` reports the timer, a
-- session and the listener.
abbrev pub quiet : Kernel
quiet = record {
  World = Unit;
  accept = λ fd w. (some 5, w);
  no_delay = λ fd on w. (true, w);
  keep_alive = λ fd on w. (true, w);
  sockname = λ fd w. some [];
  peername = λ fd w. some [];
  epoll_create = λ w. (some 4, w);
  epoll_wait = λ fd room w. (some mixed, w);
  epoll_add = λ fd events w. (true, w);
  epoll_del = λ fd w. (true, w);
  timer_create = λ w. (some 6, w);
  timer_set = λ fd interval w. (true, w);
  shutdown = λ fd w. w;
  write = λ fd buf w. w;
  open_file = λ file w. (none, w);
  sendfile = λ sock fd off size w. (none, w);
  close = λ fd w. (true, w);
  get_flags = λ fd w. some (pos 0);
  read = λ fd w. w;
}

abbrev pub slot : Slot ℕ
slot = record {
  conn = record {
    sock = 4;
    state = State.ready;
    input_buf = Buffer.new;
    output_buf = Buffer.new;
    local_addr = [];
    peer_addr = [];
    revents = 0;
  };
  session = State.new (codes "/srv") config;
  poisoned = false;
}

abbrev pub serving : TimerList ℕ ℕ → System disk quiet
serving sessions = record {
  server = record { worker_pool = ThreadPool.new 1 0; sessions = sessions; config = config };
  slots = λ s. slot;
  fresh = 41;
  kernel_world = tt;
}

abbrev pub moment : ℕ → Moment
moment n = record { now = seconds n; clock = λ i. seconds n; until = seconds n; choice = 0 }

-- A connection, a message on it, and the timer a hundred seconds later.
abbrev events : List (Moment × (Token × ℕ))
events =
    (moment 20, (Token.listen 3, 1))
    ∷ (moment 21, (Token.notify 5, 1))
    ∷ (moment 121, (Token.timer 6, 1))
    ∷ []

abbrev pub one_IsServer : IsServer (serving first.0) (seconds 10) (serving first.0) one_session
one_IsServer = record { timed = first.2; at_most = inl refl; sound = λ s e. e }

notify-submit_example :
    (m : System disk quiet) × (notify (moment 20) (Token.notify 4) 1 (serving first.0) ≡ returns m)
    × (m.server.worker_pool ≡ execute 0 40 (ThreadPool.new 1 0))
    × ((m.slots 40).conn.revents ≡ 1)
    × IsTimed (seconds 20) m.server.sessions ((4, (seconds 20, 40)) ∷ erase 4 one_session)
unfolding lookup is_close is_hup
notify-submit_example =
    notify-submit (seconds 10) (serving first.0) one_session one_IsServer (moment 20) 4 1
      (omega arith, λ i. (omega arith, omega arith), omega arith) (seconds 10, 40) refl refl refl

-- PORT with an argument that `extract_port` refuses.
abbrev pub bad_port : Bytes
bad_port = codes "PORT x" ++ b'\r' ∷ b'\n' ∷ []

notify-run_job_example :
    (s : Slot ℕ) × (run_job disk info 9 (some bad_port) ([], []) slot ≡ some s)
    × (notify
          (moment 20)
          (Token.notify 4)
          1
          (record (serving first.0) { slots = update (λ i. slot) 40 s })
        ≡ panics)
unfolding lookup decode_command find_crlf State.new parse split keyword to_ascii_uppercase
    from_utf8_lossy extract_port field from_utf8 parse_unsigned
notify-run_job_example =
    notify-run_job disk info 9 (seconds 10) (serving first.0) one_session (moment 20) 4 1
      (seconds 10, 40) bad_port ([], []) one_IsServer
      (omega arith, λ i. (omega arith, omega arith), omega arith) refl refl refl

abbrev event_loop : EventLoop
event_loop = record {
  listener = 3;
  listeners = [];
  timers = 6 ∷ [];
  poller = record { events = no_event ∷ no_event ∷ no_event ∷ []; poll_fd = 7 };
  run = true;
}

order-tokens_example :
    (q : Poller) × (poll (some mixed) event_loop.poller ≡ returns (q, 3))
    × (tokens (record event_loop { poller = q }) 0 3 ≡ returns (seen event_loop mixed))
    × Perm (order (seen event_loop mixed)) (seen event_loop mixed)
    × IsOrdered (order (seen event_loop mixed))
    × (3 ≤ 3 → length q.events ≡ 6)
order-tokens_example = order-tokens event_loop mixed

abbrev pub times : ℕ → Moment
times k = moment (20 + k)

pub times-AllInTime : AllInTime (seconds 10) times
times-AllInTime zero = (omega arith, λ i. (omega arith, omega arith), omega arith)
times-AllInTime (suc k) = (omega arith, λ i. (omega arith, omega arith), omega arith)

run-Served_example : Ran (serving first.0) (seconds 10) times (
    run
      (codes "/srv")
      times
      2
      (record { event_loop = event_loop; system = serving first.0; handled = 0 }))
run-Served_example =
    run-Served (serving first.0) (seconds 10) times (codes "/srv") 2
      (record { event_loop = event_loop; system = serving first.0; handled = 0 }) one_session
      times-AllInTime one_IsServer
