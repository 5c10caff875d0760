-- ===== src/LocalClient/Examples.antt =====
-- server/local_client.rs: a line of the user, and lines of the client that the server does not know.
use minifto.Common.{
  ◌≡◌, refl, true, false, some, [], ◌∷◌, ◌++◌, codes, lookup, ◌=?◌, returns, ok, inl, arith,
}
use minifto.Cmd.Command.{Command}
use minifto.Codec.Examples.{from_i32, from_number}
use minifto.Session.State
use minifto.Session.State.{is_logged}
use minifto.Session.Examples.{disk, info, fresh}
use minifto.LocalClient.{LocalClient, login}
use minifto.LocalClient.Talk.{Pipe, at_session}
use minifto.LocalClient.Talk.Login.{CanLogin, login-greeting, login-is_logged}
use minifto.Text.Utf8.{is_utf8_of_ascii}
use minifto.Cmd.Parse.{parse}
use minifto.Cmd.Keyword.{keyword}
use minifto.Text.Utf8.{to_ascii_uppercase, from_utf8_lossy, from_utf8}
use minifto.Text.Split.{split, find_crlf}
use minifto.LocalClient.Line.{strip_trailing_newline, split_ascii_whitespace}

program : Unit {0}
unfolding parse keyword to_ascii_uppercase from_utf8_lossy from_utf8 split strip_trailing_newline
    split_ascii_whitespace
program = tt

words :
    split_ascii_whitespace (strip_trailing_newline (codes " get  a.txt " ++ b'\n' ∷ []))
    ≡ codes "get" ∷ codes "a.txt" ∷ []
unfolding program
words = refl

-- The server does not know the words that the client sends for its commands CD, MKDIR and CLOSE.
unknown_to_server :
    (parse (codes "CD dir") ≡ returns (ok (Command.unknown (codes "CD"))))
    × (parse (codes "MKDIR dir") ≡ returns (ok (Command.unknown (codes "MKDIR"))))
    × (parse (codes "CLOSE") ≡ returns (ok (Command.unknown (codes "CLOSE"))))
unfolding program
unknown_to_server = (refl, refl, refl)

abbrev client : LocalClient Unit
client = record {
  hostname = codes "127.0.0.1";
  port = 8089;
  connected = false;
  quit = false;
  cmd_conn = some tt;
  pasv_mode = true;
}

-- The administrator, whose password is "secret", at a new session, and at one whose greeting has
-- been taken.
abbrev at_start : Pipe disk
at_start = record { machine = fresh; pending = [] }

abbrev later_on : Pipe disk
later_on = record {
  machine = record fresh { session = record fresh.session { welcome = false } };
  pending = [];
}

at_start-CanLogin : CanLogin (codes "root") (codes "secret") at_start
unfolding State.new is_logged lookup find_crlf ◌=?◌
at_start-CanLogin = record {
  open_session = refl;
  out = refl;
  word = (is_utf8_of_ascii _ (omega arith), omega arith);
  some_name = refl;
  line = refl;
  known = refl;
  some_password = refl;
}

login-greeting_example :
    (p : Pipe disk) × (login
        (at_session disk info 9)
        from_i32
        (codes "root")
        (codes "secret")
        (client, at_start)
      ≡ returns (client, p))
    × (is_logged p.machine.session ≡ false)
unfolding State.new
login-greeting_example =
    login-greeting disk info 9 from_i32 from_number (codes "root") (codes "secret") client at_start
      refl at_start-CanLogin (inl (refl, refl))

login-is_logged_example :
    (p : Pipe disk) × (login
        (at_session disk info 9)
        from_i32
        (codes "root")
        (codes "secret")
        (client, later_on)
      ≡ returns (client, p))
    × (is_logged p.machine.session ≡ true)
    × (p.pending ≡ [])
unfolding is_logged find_crlf
login-is_logged_example =
    login-is_logged disk info 9 from_i32 from_number (codes "root") (codes "secret") client later_on
      refl
      (record {
        open_session = at_start-CanLogin.open_session;
        out = at_start-CanLogin.out;
        word = at_start-CanLogin.word;
        some_name = at_start-CanLogin.some_name;
        line = at_start-CanLogin.line;
        known = at_start-CanLogin.known;
        some_password = at_start-CanLogin.some_password;
      })
      (is_utf8_of_ascii _ (omega arith), omega arith) refl refl refl
