-- ===== src/Server/Startup/Examples.antt =====
-- server/server.rs: the server is started without a configuration file.
use minifto.Common.{◌≡◌, refl, true, false, none, some, [], ◌∷◌, codes, returns, ◌>>=◌, replicate}
use minifto.Config.{default_config}
use minifto.EventLoop
use minifto.Poller
use minifto.Poller.{event_size, no_event}
use minifto.RecordLock
use minifto.Session.Examples.{disk}
use minifto.SortedList.Examples.{seconds, empty_heap}
use minifto.SortedList.Keys.{descriptor}
use minifto.Text.Utf8.{from_utf8}
use minifto.ThreadPool
use minifto.TimerList
use minifto.Utils
use minifto.Utils.{Host}
use minifto.Server.Examples.{quiet, slot, times, times-AllInTime}
use minifto.Server.Loop.{Running, run}
use minifto.Server.Rounds.{Ran}
use minifto.Server.State
use minifto.Server.Start
use minifto.Server.Start.{Started, Memory, prepare, run_server}
use minifto.Server.Startup.{run_server-Ran}

-- Every call is done, no configuration can be read, and this is the child of `fork`.
abbrev child : Host quiet
child = record {
  open_lock = λ w. (some 8, w);
  open_log = λ w. (some 9, w);
  flock = λ fd arg w. (true, w);
  ftruncate = λ fd w. (true, w);
  write = λ fd buf w. (some 5, w);
  getpid = λ w. 12345;
  umask = λ mode w. w;
  fork = λ w. (some false, w);
  dup2 = λ old new w. (true, w);
  ignore = λ signal w. (true, w);
  block_signals = λ w. (true, w);
  setsid = λ w. (true, w);
  root_dir = λ w. some (codes "/root");
  chdir = λ dir w. (true, w);
  read_to_string = λ path w. none;
  create = λ path w. (some 10, w);
  write_all = λ fd buf w. (true, w);
  from_yaml = λ content. none;
  to_yaml = λ config. some [];
  listen = λ addr w. (some 3, w);
}

abbrev memory : Memory disk
memory = record { cpus = 1; heap = empty_heap _; slots = λ s. slot }

abbrev prepared : Running disk quiet
prepared = record {
  event_loop = record {
    listener = 3;
    listeners = [];
    timers = 6 ∷ [];
    poller = record { events = replicate event_size no_event; poll_fd = 4 };
    run = true;
  };
  system = record {
    server = record {
      worker_pool = ThreadPool.new 1 0;
      sessions = TimerList.new (empty_heap _) 90;
      config = default_config;
    };
    slots = λ s. slot;
    fresh = 0;
    kernel_world = tt;
  };
  handled = 0;
}

run_server-Ran_example :
    (run_server child memory (codes "/srv") times 2 (codes "/c.yaml") tt
      ≡ (run (codes "/srv") times 2 prepared >>= λ s. returns (Started.runs s)))
    × (TimerList.size prepared.system.server.sessions ≡ 0)
    × Ran prepared.system (seconds 10) times (run (codes "/srv") times 2 prepared)
unfolding prepare Utils.already_running Utils.take_file Utils.daemonize Utils.detach
    Start.after_fork Start.load Start.get_content Start.write_default Start.build State.new
    EventLoop.new EventLoop.add_timer Poller.new Poller.register RecordLock.drop RecordLock.set_drop
    RecordLock.new from_utf8
run_server-Ran_example =
    run_server-Ran child memory (codes "/srv") (seconds 10) times 2 (codes "/c.yaml") tt prepared
      times-AllInTime refl
