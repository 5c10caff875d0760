-- ===== src/Session/State.antt =====
-- handler/session.rs: the state of a session, and `send_answer`.
use minifto.Common.{
  ℕ, Bool, true, false, ◌&&◌, not, Option, none, some, [], ◌++◌, if◌then◌else◌, Bytes, is_some,
}
use minifto.Common.Int.{ℤ, pos}
use minifto.Text.Path.{is_absolute, join}
use minifto.Text.Utf8.{from_utf8}
use minifto.Cmd.Code.{ResultCode}
use minifto.Cmd.Answer
use minifto.Cmd.Command.{TransferType}
use minifto.Codec.{encode_answer}
use minifto.Config.{Config}
use minifto.Os.{Os}

-- net/connection.rs: the states of a connection.
pub data ConnState : Type 0 where
  reading ready writing finished closed : ConnState

-- `Sock` is the type of data connections. Of the command connection only the state is kept here;
-- the fields that no handler reads (`server_root`, `codec`, `event_loop`, `help_map`) are left out.
pub record Session (Sock : Type 0) : Type 0 where
  pub cur_dir : Bytes
  pub file_name : Option Bytes
  pub cmd_state : ConnState
  pub data_conn : Option Sock
  pub data_port : Option ℕ
  pub mode : ℕ
  pub name : Option Bytes
  pub is_admin : Bool
  pub transfer_type : TransferType
  pub waiting_password : Bool
  pub config : Config
  pub pasv_enable : Bool
  pub welcome : Bool
  pub resume_point : ℤ

-- `Session::new`, with the canonical home directory of the user 0.
unfoldable pub new : {Sock : Type 0} → (root : Bytes) → Config → Session Sock
new root config = record {
  cur_dir = root;
  file_name = none;
  cmd_state = ready;
  data_conn = none;
  data_port = some 22;
  mode = 0;
  name = none;
  is_admin = true;
  transfer_type = TransferType.binary;
  waiting_password = false;
  config = config;
  pasv_enable = config.pasv_enable;
  welcome = true;
  resume_point = pos 0;
}

module _ {Sock : Type 0} where
  unfoldable pub is_logged : Session Sock → Bool
  is_logged s = is_some s.name && not s.waiting_password

  unfoldable pub to_absolute : Session Sock → Bytes → Bytes
  to_absolute s path = if is_absolute path then path else join s.cur_dir path

-- What a handler works on: the session, the world, and the bytes written to the command
-- connection so far.
pub record Machine (os : Os) : Type 0 where
  pub session : Session os.Sock
  pub world : os.World
  pub sent : Bytes

-- A handler returns, or panics with what it had done by then, or a loop has used up its fuel.
pub data Run (os : Os) : Type 0 where
  done : Machine os → Run os
  panicked : Machine os → Run os
  out_of_fuel : Run os

module _ {os : Os} where
  infixl 5 ◌>>=◌
  abbrev pub ◌>>=◌ : Run os → (Machine os → Run os) → Run os
  done m >>= k = k m
  panicked m >>= k = panicked m
  out_of_fuel >>= k = out_of_fuel

  -- `e.unwrap()` in the state `m`.
  abbrev pub expect {ℓ} : {A : Type ℓ} → Machine os → Option A → (A → Run os) → Run os
  expect m none k = panicked m
  expect m (some a) k = k a

  -- A match on an option.
  abbrev pub cases {ℓ} : {A : Type ℓ} → Option A → Run os → (A → Run os) → Run os
  cases none r k = r
  cases (some a) r k = k a

  -- `path.to_str().unwrap()`
  abbrev pub with_str : Machine os → Bytes → (Bytes → Run os) → Run os
  with_str m path k = expect m (from_utf8 path) k

  -- The encoding of the answer is written to the command connection.
  unfoldable pub send_answer : ResultCode → Bytes → Machine os → Machine os
  send_answer code message m = record m {
    sent = m.sent ++ encode_answer (Answer.new code message) [];
  }

  abbrev pub set_session : Machine os → Session os.Sock → Machine os
  set_session m s = record m { session = s }

  abbrev pub set_world : Machine os → os.World → Machine os
  set_world m w = record m { world = w }
