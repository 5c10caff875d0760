-- ===== src/LocalClient.antt =====
-- server/local_client.rs: the client on the command line. What it prints is left out. Its connections,
-- its terminal and its files are a parameter, and `from_i32` is the derived conversion of
-- `ResultCode`. Texts are ASCII where they are trimmed or cut at white space.
pub mod Line
pub mod Transfer
pub mod Shell
pub mod Wire
pub mod Talk
mod Examples
use minifto.Common.{
  ℕ, Bool, true, false, Option, none, some, List, [], ◌∷◌, ◌++◌, ◌==◌, if◌then◌else◌, Bytes, codes,
  is_some, Fallible, returns, panics, ◌>>=◌, unwrap, ok, err,
}
use minifto.Common.Int.{ℤ}
use minifto.Text.Decimal.{show, parse_unsigned}
use minifto.Cmd.Code.{ResultCode, number}
use minifto.Cmd.Answer
use minifto.LocalClient.Line.{strip_trailing_newline}
use minifto.Codec.{encode_bytes, decode_answer, Decoded}

-- `none` is an error, which the source unwraps.
pub record Peer : Type 1 where
  pub World : Type 0
  pub Conn : Type 0
  -- `Socket::connect` and `Connection::new`
  pub connect : Bytes → World → Option Conn × World
  -- `Connection::send` and then `read_msg`
  pub exchange : Conn → Bytes → World → Option Bytes × World
  -- `Socket::bind`, `accept` and `set_no_delay`, and `Connection::new`
  pub accept : Bytes → World → Option Conn × World
  pub read_buf : Conn → World → Bytes × World
  pub send_file : Conn → Bytes → World → Option ℕ × World
  pub shutdown : Conn → World → World
  pub read_line : World → Option Bytes × World
  -- `fs::File::open`, and a `write` to the file of that name
  pub open_file : Bytes → World → Bool × World
  pub write : Bytes → Bytes → World → Option ℕ × World

pub record LocalClient (Conn : Type 0) : Type 0 where
  pub hostname : Bytes
  pub port : ℕ
  pub connected : Bool
  pub quit : Bool
  pub cmd_conn : Option Conn
  pub pasv_mode : Bool

-- `LocalClient::new`
unfoldable pub new : {Conn : Type 0} → LocalClient Conn
new = record {
  hostname = codes "127.0.0.1";
  port = 8089;
  connected = false;
  quit = false;
  cmd_conn = none;
  pasv_mode = true;
}

-- The client and what is around it.
abbrev pub Client : Peer → Type 0
Client peer = LocalClient peer.Conn × peer.World

-- `exit`
unfoldable pub exit : (peer : Peer) → Client peer → Client peer
exit peer (c, w) = elim c.cmd_conn [
  | none ↦ (record c { quit = true }, w)
  | some conn ↦ (record c { quit = true; cmd_conn = none }, peer.shutdown conn w)
]

module _ (peer : Peer) (from_i32 : ℤ → Option ResultCode) where
  abbrev is_open : Client peer → Bool
  is_open c = is_some c.0.cmd_conn

  -- `self.codec.decode(&mut msg).unwrap()`
  answer_of : Decoded Answer.Answer → Fallible (Option Answer.Answer)
  answer_of (returns (ok a)) = returns a
  answer_of (returns (err e)) = panics
  answer_of panics = panics

  -- `send_cmd`
  unfoldable pub send_cmd : Bytes → Client peer → Fallible (Client peer × Option Answer.Answer)
  unfolding answer_of
  send_cmd cmd c = do
    conn ← unwrap c.0.cmd_conn
    let r = peer.exchange conn (encode_bytes cmd []) c.1
    msg ← unwrap r.0
    answer ← answer_of (decode_answer from_i32 msg)
    returns ((c.0, r.1), answer)

  -- The commands whose answer is only printed.
  unfoldable pub send : Bytes → Client peer → Fallible (Client peer)
  unfolding send_cmd
  send cmd c = send_cmd cmd c >>= λ r. returns r.0

  unfoldable pub pwd : Client peer → Fallible (Client peer)
  unfolding send
  pwd c = send (codes "PWD") c

  unfoldable pub cd : Bytes → Client peer → Fallible (Client peer)
  unfolding send
  cd path c = send (codes "CD " ++ path) c

  unfoldable pub mkdir : Bytes → Client peer → Fallible (Client peer)
  unfolding send
  mkdir path c = send (codes "MKDIR " ++ path) c

  unfoldable pub rmdir : Bytes → Client peer → Fallible (Client peer)
  unfolding send
  rmdir path c = send (codes "RMDIR " ++ path) c

  unfoldable pub delete : Bytes → Client peer → Fallible (Client peer)
  unfolding send
  delete path c = send (codes "DELE " ++ path) c

  unfoldable pub binary : Client peer → Fallible (Client peer)
  unfolding send
  binary c = send (codes "TYPE I") c

  unfoldable pub size : Bytes → Client peer → Fallible (Client peer)
  unfolding send
  size path c = send (codes "SIZE " ++ path) c

  unfoldable pub syst : Client peer → Fallible (Client peer)
  unfolding send
  syst c = send (codes "SYST") c

  unfoldable pub noop : Client peer → Fallible (Client peer)
  unfolding send
  noop c = send (codes "NOOP") c

  unfoldable pub abort : Client peer → Fallible (Client peer)
  unfolding send
  abort c = send (codes "ABOR") c

  -- `login`: a client that is not connected panics in `send_cmd`; both answers are unwrapped.
  unfoldable pub login : (username password : Bytes) → Client peer → Fallible (Client peer)
  unfolding send_cmd
  login username password c = do
    r ← send_cmd (codes "USER " ++ username) c
    reply ← unwrap r.1
    if number reply.code == number ResultCode.need_psw
        then (send_cmd (codes "PASS " ++ password) r.0 >>= λ s.
            unwrap s.1 >>= λ answer. returns s.0)
        else returns r.0

  -- `user`, with `binary` behind the login.
  unfoldable pub user : Client peer → Fallible (Client peer)
  unfolding login binary
  user c = do
    let r = peer.read_line c.1
    username ← unwrap r.0
    let s = peer.read_line r.1
    password ← unwrap s.0
    c' ← login (strip_trailing_newline username) (strip_trailing_newline password) (c.0, s.1)
    binary c'

  -- The end of `open`: the connection, and the login.
  connect : Client peer → Fallible (Client peer)
  unfolding user
  connect c = do
    let r = peer.connect (c.0.hostname ++ b':' ∷ show c.0.port) c.1
    conn ← unwrap r.0
    user (record c.0 { cmd_conn = some conn }, r.1)

  -- `open`; `read_line` puts what it reads behind the name of the host.
  unfoldable pub open_host : (args : List Bytes) → Client peer → Fallible (Client peer)
  unfolding connect
  open_host args c = if is_open c then returns c else open_args args
    where
      open_args : List Bytes → Fallible (Client peer)
      open_args [] =
          let r = peer.read_line c.1 in
          unwrap r.0 >>= λ line. connect (record c.0 { hostname = c.0.hostname ++ line }, r.1)
      open_args (host ∷ []) = connect (record c.0 { hostname = host }, c.1)
      open_args (host ∷ number ∷ rest) = elim (parse_unsigned 65535 number) [
        | some port ↦ connect (record c.0 { hostname = host; port = port }, c.1)
        | none ↦ returns (record c.0 { hostname = host }, c.1)
      ]

  -- `close`
  unfoldable pub close : Client peer → Fallible (Client peer)
  unfolding send
  close c = send (codes "CLOSE") c >>= λ c'. returns (record c'.0 { cmd_conn = none }, c'.1)
