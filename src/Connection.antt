-- ===== src/Connection.antt =====
-- net/connection.rs: the events that epoll reports of a connection, and its reads. The answers of
-- `readv` are an argument, and `fuel` bounds the loop of `Buffer::read`: `none` is a loop that has
-- not ended.
pub mod Messages
pub mod Calls
mod Examples
use minifto.Common.{
  ℕ, Bool, true, false, ◌&&◌, not, Option, none, some, ltb, ◌==◌, if◌then◌else◌, Bytes, Fallible,
  returns, panics, ◌>>=◌, unwrap,
}
use mathlib.Core.Option
use minifto.Buffer
use minifto.Buffer.{Buffer, ReadAnswer}
use minifto.Session.State.{ConnState, ready, closed}
use minifto.Kernel.{epoll_in, epoll_out, epoll_err, epoll_hup}
use Prim.Native.Nat.{bit_and}

-- `(events & flags).bits() > 0`
abbrev meets : (events flags : ℕ) → Bool
meets events flags = ltb 0 (bit_and events flags)

unfoldable pub is_readable : ℕ → Bool
is_readable events = meets events 3

unfoldable pub is_writeable : ℕ → Bool
is_writeable events = meets events epoll_out

unfoldable pub is_close : ℕ → Bool
is_close events = meets events epoll_hup && not (meets events epoll_in)

unfoldable pub is_error : ℕ → Bool
is_error events = meets events epoll_err

unfoldable pub is_hup : ℕ → Bool
is_hup events = meets events epoll_hup

pub record Connection : Type 0 where
  pub sock : ℕ
  pub state : ConnState
  pub input_buf : Buffer
  pub output_buf : Buffer
  pub local_addr : Bytes
  pub peer_addr : Bytes
  pub revents : ℕ

-- `new`, with the answers of `getsockname` and `getpeername` as texts.
unfoldable pub new : (sock : ℕ) → (sockname peername : Option Bytes) → Fallible Connection
new sock sockname peername =
    if ltb 0 sock
    then (do
      local_addr ← unwrap sockname
      peer_addr ← unwrap peername
      returns (record {
        sock = sock;
        state = ready;
        input_buf = Buffer.new;
        output_buf = Buffer.new;
        local_addr = local_addr;
        peer_addr = peer_addr;
        revents = 0;
      }))
    else panics

abbrev pub set_revents : ℕ → Connection → Connection
set_revents events c = record c { revents = events }

unfoldable pub get_revents : Connection → ℕ
get_revents c = c.revents

unfoldable pub get_peer_addr : Connection → Bytes
get_peer_addr c = c.peer_addr

unfoldable pub get_local_addr : Connection → Bytes
get_local_addr c = c.local_addr

unfoldable pub get_fd : Connection → ℕ
get_fd c = c.sock

unfoldable pub get_state : Connection → ConnState
get_state c = c.state

module _ (readv : ℕ → ℕ → ReadAnswer) (fuel : ℕ) where
  -- `self.input_buf.read(fd)`, with the count that it returns.
  abbrev fill : Connection → Fallible (Option (Connection × ℕ))
  fill c = Buffer.read readv fuel 0 c.input_buf 0 >>= λ r.
      returns (Option.map (λ n. (record c { input_buf = n.0 }, n.1)) r)

  -- `dispatch`; the state that it returns is the connection's.
  unfoldable pub dispatch : (revents : ℕ) → Connection → Fallible (Option Connection)
  dispatch revents c =
      let state : ConnState =
        if is_error revents then closed else if is_close revents then closed else ready in
      if is_readable revents
      then (fill c >>= λ r. returns (Option.map (λ n. record n.0 { state = state }) r))
      else returns (some (record c { state = state }))

  -- `read_buf`
  unfoldable pub read_buf : Connection → Fallible (Option (Connection × Bytes))
  read_buf c = fill c >>= λ r. elim r [
    | none ↦ returns none
    | some n ↦
        Buffer.read_buf n.0.input_buf >>= λ b. returns (some (record n.0 { input_buf = b.0 }, b.1))
  ]

  -- `read_msg`
  unfoldable pub read_msg : Connection → Fallible (Option (Connection × Option Bytes))
  read_msg c = fill c >>= λ r. elim r [
    | none ↦ returns none
    | some n ↦
        if n.1 == 0
        then returns (some (n.0, none))
        else Buffer.get_crlf_line n.0.input_buf >>= λ b.
            returns (some (record n.0 { input_buf = b.0 }, b.1))
  ]
