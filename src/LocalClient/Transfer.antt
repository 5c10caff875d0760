-- ===== src/LocalClient/Transfer.antt =====
-- server/local_client.rs: the commands with a data connection.
use minifto.Common.{
  ℕ, zero, suc, ◌+◌, ◌/◌, ◌%◌, ◌^◌, not, ◌&&◌, Option, none, some, ◌∷◌, ◌++◌, ◌==◌, if◌then◌else◌,
  Bytes, codes, length, Fallible, returns, panics, ◌>>=◌, unwrap,
}
use minifto.Common.Int.{ℤ}
use minifto.Os.{Stat}
use minifto.Text.Decimal.{show}
use minifto.Text.Utf8.{is_utf8}
use minifto.Cmd.Code.{ResultCode, number}
use minifto.LocalClient.{Peer, Client, send_cmd, send, binary}
use mathlib.Core.Option

-- The text of the command of `port`.
unfoldable pub port_command : ℕ → Bytes
port_command port = codes "PORT 127,0,0,1," ++ show (port / 256) ++ b',' ∷ show (port % 256)

-- `get_file_size`, of the answer of `lstat`
unfoldable pub get_file_size : Option Stat → ℕ
get_file_size (some stat) = stat.st_size
get_file_size none = 0

module _ (peer : Peer) where
  -- The loop of `get`: it ends with an empty buffer, or with a write that fails or writes nothing.
  receive_file : (fuel : ℕ) → peer.Conn → (file : Bytes) → peer.World → Option peer.World
  receive_file zero conn file w = none
  receive_file (suc fuel) conn file w =
      let r = peer.read_buf conn w in
      let s = peer.write file r.0 r.1 in
      let rest = receive_file fuel conn file s.1 in
      if length r.0 == 0 then some r.1 else written s.0 (some s.1) rest
    where
      written : Option ℕ → Option peer.World → Option peer.World → Option peer.World
      written none ended rest = ended
      written (some n) ended rest = if n == 0 then ended else rest

module _ (peer : Peer) (from_i32 : ℤ → Option ResultCode) where
  -- `port`: the sum is a `u16`, which wraps in a release build.
  unfoldable pub port : Client peer → Fallible (Client peer × peer.Conn)
  unfolding send port_command
  port c = do
    let number : ℕ = (c.0.port + 1) % 2 ^ 16
    c' ← send peer from_i32 (port_command number) c
    let r = peer.accept (codes "127.0.0.1:" ++ show number) c'.1
    conn ← unwrap r.0
    returns ((c'.0, r.1), conn)

  -- `list`: the connection of the first `port` is dropped, and `receive_data` makes another.
  unfoldable pub list : Bytes → Client peer → Fallible (Client peer)
  unfolding send port
  list args c = do
    r ← port c
    c' ← send peer from_i32 (codes "LIST " ++ args) r.0
    s ← port c'
    let msg = peer.read_buf s.1 s.0.1
    if is_utf8 msg.0 then returns (s.0.0, msg.1) else panics

  -- `get`; `none` is a loop that has not ended.
  unfoldable pub get : (fuel : ℕ) → Bytes → Client peer → Fallible (Option (Client peer))
  unfolding send_cmd port receive_file
  get fuel file c = do
    r ← port c
    s ← send_cmd peer from_i32 (codes "RETR " ++ file) r.0
    answer ← unwrap s.1
    if number answer.code == number ResultCode.data_conn_opened
        then (do
          let f = peer.open_file file s.0.1
          if f.0
              then returns (Option.map (λ w. (s.0.0, w)) (receive_file peer fuel r.1 file f.1))
              else panics)
        else returns (some s.0)

  -- `put`: the file is sent unless the answer says that the data connection is open, or is `Ok`.
  unfoldable pub put : Bytes → Client peer → Fallible (Client peer)
  unfolding binary send_cmd port
  put file c = do
    c' ← binary peer from_i32 c
    s ← send_cmd peer from_i32 (codes "STOR " ++ file) c'
    answer ← unwrap s.1
    if not (number answer.code == number ResultCode.data_conn_opened)
          && not (number answer.code == number ResultCode.ok)
        then (do
          r ← port s.0
          let f = peer.send_file r.1 file r.0.1
          n ← unwrap f.0
          returns (r.0.0, f.1))
        else returns s.0
