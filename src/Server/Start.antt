-- ===== src/Server/Start.antt =====
-- utils/config.rs and server/server.rs: the configuration of a file, and the start of the server.
use minifto.Common.{
  ℕ, Option, none, some, Bytes, codes, ◌++◌, if◌then◌else◌, Fallible, returns, ◌>>=◌, unwrap,
}
use minifto.Os.{Os}
use minifto.Kernel.{Kernel, called}
use minifto.Config.{Config, default_config}
use minifto.EventLoop
use minifto.SortedList.{Heap}
use minifto.Text.Decimal.{show}
use minifto.Text.Utf8.{from_utf8}
use minifto.Utils.{Host, already_running, daemonize}
use minifto.Server.State
use minifto.Server.State.{Moment, Slot}
use minifto.Server.Loop.{Running, run}

module _ {kernel : Kernel} (host : Host kernel) where
  unfoldable pub get_content : (path : Bytes) → kernel.World → Fallible (Option Bytes)
  get_content path w = unwrap (from_utf8 path) >>= λ text. returns (host.read_to_string text w)

  -- Where no file can be read, the default is written to `DEFAULT_CONF_FILE`.
  unfoldable pub write_default : kernel.World → Fallible (Config × kernel.World)
  write_default w = unwrap (host.to_yaml default_config) >>= λ content.
      let r = host.create (codes "config.yaml") w in
      unwrap r.0 >>= λ file.
      called (host.write_all file content r.1) >>= λ w'. returns (default_config, w')

  -- `Config::new`
  unfoldable pub load : (path : Bytes) → kernel.World → Fallible (Config × kernel.World)
  unfolding get_content write_default
  load path w = get_content path w >>= λ r. elim r [
    | none ↦ write_default w
    | some content ↦ unwrap (host.from_yaml content) >>= λ config. returns (config, w)
  ]

-- How the start of the server ends: another one runs already, this process is the parent and exits,
-- or the loop of `run` is entered.
pub data Started (os : Os) (kernel : Kernel) : Type 0 where
  refused : Started os kernel
  exits : Started os kernel
  runs : Running os kernel → Started os kernel

-- The memory that the server begins with: the number of processors, and what the allocator and the
-- new mutexes hold before they are written.
pub record Memory (os : Os) : Type 0 where
  pub cpus : ℕ
  pub heap : Heap ℕ (ℕ × ℕ)
  pub slots : ℕ → Slot os.Sock

module _ {os : Os} {kernel : Kernel} (host : Host kernel) (memory : Memory os) where
  -- The server and its loop, from the configuration on: they are ready to run.
  unfoldable pub build : Config → kernel.World → Fallible (Running os kernel)
  unfolding EventLoop.new State.new
  build config w =
      let addr = config.server_addr ++ codes ":" ++ show config.server_port in
      let r = host.listen addr w in
      unwrap r.0 >>= λ listener. EventLoop.new kernel listener r.1 >>= λ l.
      State.new kernel memory.cpus memory.heap config l.0 l.1 >>= λ s. returns (record {
        event_loop = s.1;
        system = record { server = s.0; slots = memory.slots; fresh = 0; kernel_world = s.2 };
        handled = 0;
      })

  -- What follows `daemonize`: the parent exits, and the child builds the server.
  unfoldable pub after_fork : (path : Bytes) → Option kernel.World → Fallible (Started os kernel)
  unfolding load build
  after_fork path none = returns Started.exits
  after_fork path (some w) =
      load host path w >>= λ c. build c.0 c.1 >>= λ s. returns (Started.runs s)

  -- `run_server` up to `run`
  unfoldable pub prepare : (path : Bytes) → kernel.World → Fallible (Started os kernel)
  unfolding already_running daemonize after_fork
  prepare path w = already_running host w >>= λ r.
      if r.0 then returns Started.refused else (daemonize host r.1 >>= λ d. after_fork path d)

  -- `run_server`, with the turns of `run`
  unfoldable pub run_server :
      (root : Bytes)
      → (times : ℕ → Moment) → (rounds : ℕ) → (path : Bytes) → kernel.World
      → Fallible (Started os kernel)
  unfolding prepare run
  run_server root times rounds path w = prepare path w >>= λ s. elim s [
    | Started.refused ↦ returns Started.refused
    | Started.exits ↦ returns Started.exits
    | Started.runs s ↦ run root times rounds s >>= λ s'. returns (Started.runs s')
  ]
