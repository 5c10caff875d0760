-- ===== src/Utils.antt =====
-- utils/utils.rs: the files, the lock of the process and its life as a daemon. The calls of the
-- operating system are a parameter; `Host` has those that only the start of the server makes.
use minifto.Common.{
  ℕ, zero, suc, Bool, true, false, Option, none, some, Bytes, Fallible, returns, ◌>>=◌, unwrap,
  if◌then◌else◌,
}
use minifto.Kernel.{Kernel, called}
use minifto.Os.{Os, has_flag, s_ifreg}
use minifto.RecordLock
use minifto.RecordLock.{FlockArg}
use minifto.Text.Decimal.{show}
use minifto.Config.{Config}

abbrev s_ifdir : ℕ
s_ifdir = 0o040000

abbrev s_iflnk : ℕ
s_iflnk = 0o120000

module _ (os : Os) where
  -- `is_regular`, `is_link` and `is_dir` differ in the flag; the error of `lstat` is unwrapped.
  has_mode : (flag : ℕ) → (path : Bytes) → os.World → Fallible Bool
  has_mode flag path w = unwrap (os.lstat path w) >>= λ stat. returns (has_flag stat.st_mode flag)

  unfoldable pub is_regular : (path : Bytes) → os.World → Fallible Bool
  unfolding has_mode
  is_regular path w = has_mode s_ifreg path w

  unfoldable pub is_link : (path : Bytes) → os.World → Fallible Bool
  unfolding has_mode
  is_link path w = has_mode s_iflnk path w

  unfoldable pub is_dir : (path : Bytes) → os.World → Fallible Bool
  unfolding has_mode
  is_dir path w = has_mode s_ifdir path w

  unfoldable pub is_exist : (path : Bytes) → os.World → Bool
  is_exist path w = os.access path w

pub record Host (kernel : Kernel) : Type 0 where
  -- `open` of the lock file and of the log file, to be created if they are not there
  pub open_lock : kernel.World → Option ℕ × kernel.World
  pub open_log : kernel.World → Option ℕ × kernel.World
  pub flock : ℕ → FlockArg → kernel.World → Bool × kernel.World
  -- `ftruncate` to 0, and `write` with the number of bytes that were written
  pub ftruncate : ℕ → kernel.World → Bool × kernel.World
  pub write : ℕ → Bytes → kernel.World → Option ℕ × kernel.World
  pub getpid : kernel.World → ℕ
  pub umask : ℕ → kernel.World → kernel.World
  -- `fork`, which tells the parent from the child: `true` is the parent.
  pub fork : kernel.World → Option Bool × kernel.World
  pub dup2 : (old new : ℕ) → kernel.World → Bool × kernel.World
  -- `signal` with `SigIgn`; `pthread_sigmask` that blocks them all; `setsid`
  pub ignore : (signal : ℕ) → kernel.World → Bool × kernel.World
  pub block_signals : kernel.World → Bool × kernel.World
  pub setsid : kernel.World → Bool × kernel.World
  -- The directory of the user 0, by `User::from_uid`; `chdir`
  pub root_dir : kernel.World → Option Bytes
  pub chdir : Bytes → kernel.World → Bool × kernel.World
  -- `File::open` and `read_to_string`; `File::create`; `write_all`
  pub read_to_string : (path : Bytes) → kernel.World → Option Bytes
  pub create : (path : Bytes) → kernel.World → Option ℕ × kernel.World
  pub write_all : ℕ → Bytes → kernel.World → Bool × kernel.World
  -- `serde_yaml`
  pub from_yaml : Bytes → Option Config
  pub to_yaml : Config → Option Bytes
  -- `TcpListener::bind`
  pub listen : (addr : Bytes) → kernel.World → Option ℕ × kernel.World

module _ {kernel : Kernel} (host : Host kernel) where
  -- What `already_running` does with the lock file. The lock is a temporary, whose `set_drop` lets
  -- its `Drop` do nothing; `Ok(0)` and an error of `write` count as running.
  unfoldable pub take_file : (fd : ℕ) → kernel.World → Fallible (Bool × kernel.World)
  unfolding RecordLock.drop RecordLock.set_drop RecordLock.new
  take_file fd w =
      RecordLock.drop host.flock (RecordLock.set_drop false (RecordLock.new fd)) w >>= λ w'.
      let t = host.ftruncate fd w' in
      let r = host.write fd (show (host.getpid t.1)) t.1 in
      returns (
        if t.0
        then (elim r.0 [ none ↦ true | some n ↦ elim n [ zero ↦ true | suc k ↦ false ] ], r.1)
        else (false, t.1))

  unfoldable pub already_running : kernel.World → Fallible (Bool × kernel.World)
  unfolding take_file
  already_running w = let r = host.open_lock w in unwrap r.0 >>= λ fd. take_file fd r.1

  -- What the child of `daemonize` does: `STDERR_FILENO` is 2 and `STDOUT_FILENO` 1, `SIGPIPE` is 13
  -- and `SIGHUP` 1.
  unfoldable pub detach : (log_fd : ℕ) → kernel.World → Fallible kernel.World
  detach log_fd w = do
    w1 ← called (host.dup2 log_fd 2 w)
    w2 ← called (host.dup2 log_fd 1 w1)
    w3 ← called (host.ignore 13 w2)
    w4 ← called (host.ignore 1 w3)
    w5 ← called (host.block_signals w4)
    w6 ← called (host.setsid w5)
    root ← unwrap (host.root_dir w6)
    called (host.chdir root w6)

  -- `none` is the parent, which exits.
  unfoldable pub daemonize : kernel.World → Fallible (Option kernel.World)
  unfolding detach
  daemonize w =
      let l = host.open_log (host.umask 0 w) in
      unwrap l.0 >>= λ log_fd.
      let f = host.fork l.1 in
      unwrap f.0 >>= λ is_parent.
      if is_parent then returns none else (detach log_fd f.1 >>= λ w'. returns (some w'))
