-- ===== src/Os.antt =====
-- The operating system as the session uses it, through the crate `nix` and the standard library.
-- It is a parameter: a world, queries of it, and calls that change it. `none` is the error of a
-- call, and `false` beside a world is the error of a call that has no other result.
use minifto.Common.{ℕ, Bool, Option, List, Bytes, ◌==◌}
use minifto.Common.Int.{ℤ}
use Prim.Native.Nat.{bit_and}

-- The fields of `FileStat` that are read.
pub record Stat : Type 0 where
  pub st_mode : ℕ
  pub st_size : ℕ

-- An entry of an open directory: its name, and whether its type is `Type::Directory`.
pub record Entry : Type 0 where
  pub name : Bytes
  pub directory : Bool

pub record Os : Type 1 where
  pub World : Type 0
  -- A socket of a data connection, a listening socket, an open file.
  pub Sock : Type 0
  pub Listener : Type 0
  pub File : Type 0
  -- `access(path, F_OK).is_ok()`, `lstat(path).ok()`
  pub access : Bytes → World → Bool
  pub lstat : Bytes → World → Option Stat
  -- `Path::is_dir`, `Path::exists`, `canonicalize(path).ok()`
  pub is_dir : Bytes → World → Bool
  pub exists : Bytes → World → Bool
  pub canonicalize : Bytes → World → Option Bytes
  -- The entries of `Dir::open(path, ..)`; `none` if the open or an entry fails.
  pub read_dir : Bytes → World → Option (List Entry)
  -- `mkdir(path, mode)`, `unlink(path)`, `renameat(None, from, None, to)`, `fchmodat(.., path, mode, ..)`
  pub mkdir : Bytes → ℕ → World → Bool × World
  pub unlink : Bytes → World → Bool × World
  pub renameat : Bytes → Bytes → World → Bool × World
  pub fchmodat : Bytes → ℕ → World → Bool × World
  -- `Socket::connect` to a port of 127.0.0.1 with its options, and `Connection::new` of it
  pub connect : ℕ → World → Option Sock × World
  -- `TcpListener::bind` at a port; `Acceptor::accept` with its options, and `Connection::new` of it
  pub bind : ℕ → World → Option Listener × World
  pub accept : Listener → World → Option Sock × World
  -- `Connection::send`, `read_buf` and `shutdown` of a data connection
  pub send : Sock → Bytes → World → World
  pub read_buf : Sock → World → Bytes × World
  pub shutdown : Sock → World → World
  -- `open(path, O_RDWR, S_IRUSR)` and `open(path, O_CREAT | O_RDWR, mode)`
  pub open_read : Bytes → World → Option File × World
  pub open_create : Bytes → ℕ → World → Option File × World
  -- `sendfile(sock, file, offset, count)`
  pub sendfile : Sock → File → ℕ → ℕ → World → Option ℕ × World
  -- `ftruncate(file, 0)`, `lseek(file, offset, SEEK_SET)`, `write`, `close`
  pub ftruncate : File → World → Bool × World
  pub lseek : File → ℤ → World → Bool × World
  pub write : File → Bytes → World → Option ℕ × World
  pub close : File → World → Bool × World
  -- `flock(file, LOCK_EX | LOCK_NB)` and `flock(file, LOCK_UN)`
  pub flock_exclusive : File → World → Bool × World
  pub flock_unlock : File → World → Bool × World
  -- `Instant::now()`, in microseconds, and `sleep` for a number of them
  pub now : World → ℕ
  pub sleep : ℕ → World → World
  -- The floating point quotient of `limit_speed`, `size * 1000000 / (max_speed * 1024)`
  pub normal_elapsed : (size : ℕ) (max_speed : ℤ) → ℕ
  -- The five fields of `uname()`, joined by spaces
  pub uname : Bytes
  -- `{:?}` of a vector of strings
  pub debug : List Bytes → Bytes

-- `mode & flag == flag`
abbrev pub has_flag : ℕ → ℕ → Bool
has_flag mode flag = bit_and mode flag == flag

-- `SFlag::S_IFREG.bits()`
abbrev pub s_ifreg : ℕ
s_ifreg = 0o100000
