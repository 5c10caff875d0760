-- ===== src/Session/Dispatch/Auth.antt =====
-- handler/session.rs: who may do what, over `execute` and `handle_command`.
use minifto.Common.{
  ℕ, ◌≡◌, refl, sym, subst, ◌∙◌, Bool, true, false, Option, none, some, [], Bytes, arith, lookup,
  =?→eq, is_some,
}
use minifto.Cmd.Command.{Command}
use minifto.Codec.{decode_command}
use mathlib.Core.Option
use minifto.Os.{Os}
use minifto.Session.State.{
  Session, Machine, Run, done, panicked, ◌>>=◌, expect, is_logged, send_answer,
}
use minifto.Session.Login
use minifto.Session.Dispatch.{
  execute, handle_command, logged, not_logged, always, greet, handle_msg, connected, frame_of,
}
use minifto.Session.Dispatch.Outcome.{
  Ends-map, Returns, Returns-bind, Returns-if, Returns-cases, Returns-expect, Returns-of_Ends,
}
use minifto.Session.Dispatch.Keeps.{Same}
use minifto.Session.Dispatch.Keeps.Logged.{logged-Same}

-- The commands that a session without a login does nothing for.
unfoldable pub needs_login : Command → Bool
needs_login (Command.user _) = false
needs_login (Command.pass _) = false
needs_login Command.quit = false
needs_login Command.syst = false
needs_login Command.acct = false
needs_login Command.no_op = false
needs_login (Command.unknown _) = false
needs_login _ = true

-- What a command must be for a session to be logged in after it.
unfoldable pub Proves : {Sock : Type 0} → Command → Session Sock → Type 0
Proves (Command.pass password) s = elim s.name [
  | none ↦ ⊥
  | some name ↦ lookup name s.config.users ≡ some password
]
Proves (Command.user name) s = lookup name s.config.users ≡ some []
Proves _ s = ⊥

-- The user is a known one, and an administrator has the administrator's name.
unfoldable pub IsAuthorised : {os : Os} → Machine os → Type 0
IsAuthorised m = elim m.session.name [
  | none ↦ Unit {0}
  | some name ↦
      (is_some (lookup name m.session.config.users) ≡ true)
      × (m.session.is_admin ≡ true → m.session.config.admin ≡ some name)
]

module _ {os : Os} (file_info : Bytes → os.World → Option Bytes) (fuel : ℕ) where
  pub execute-out :
      (c : Command) (m : Machine os)
      → is_logged m.session ≡ false
      → execute file_info fuel c m
        ≡ not_logged file_info fuel c m >>= λ m'. always file_info fuel c m'
  unfolding execute
  execute-out c m out = rw (out, execute) refl

  -- In a session that is not logged in, `execute` returns with nothing changed and nothing sent
  -- for every command but USER, PASS, QUIT, SYST, ACCT, NOOP and an unknown one.
  pub execute-needs_login :
      (c : Command) (m : Machine os)
      → is_logged m.session ≡ false
      → needs_login c ≡ true
      → execute file_info fuel c m ≡ done m
  unfolding not_logged always needs_login
  execute-needs_login c m out need = rw (execute-out c m out) ground arith

  returned :
      (P : Machine os → Type 0) (r : Run os) (m : Machine os) → r ≡ done m → Returns P r → P m
  returned P r m e h = subst (Returns P) e h

  user-Proves :
      (name : Bytes) (m : Machine os)
      → is_logged m.session ≡ false
      → Returns
          (λ m'. is_logged m'.session ≡ true → lookup name m.session.config.users ≡ some [])
          (Login.user name m)
  unfolding Login.user Login.identify Login.enter Login.enter_home is_logged send_answer
  user-Proves name m out = ground arith

  pass-Proves :
      (password : Bytes) (m : Machine os)
      → is_logged m.session ≡ false
      → Returns
          (λ m'. is_logged m'.session ≡ true → Proves (Command.pass password) m.session)
          (Login.pass password m)
  unfolding Login.pass is_logged send_answer Proves
  pass-Proves password m out =
      let stored : Bytes =
        Option.get_or (lookup (Option.get_or m.session.name []) m.session.config.users) [] in
      ground (arith, =?→eq password stored)

  out-Proves :
      (c : Command) (m : Machine os)
      → is_logged m.session ≡ false
      → Returns
          (λ m'. is_logged m'.session ≡ true → Proves c m.session)
          (not_logged file_info fuel c m >>= λ m'. always file_info fuel c m')
  unfolding not_logged always is_logged Proves Login.quit send_answer
  out-Proves (Command.pass password) m out =
      Returns-bind _ _ (Login.pass password m) done (pass-Proves password m out) λ m' h. h
  out-Proves (Command.user name) m out = user-Proves name m out
  out-Proves c m out = ground arith

  -- If a session is not logged in, and it is logged in when `execute` has returned, then the
  -- command was PASS with the password that the configuration has for the name of the session, or
  -- USER with a name whose password is empty.
  pub execute-Proves :
      (c : Command) (m m' : Machine os)
      → is_logged m.session ≡ false
      → execute file_info fuel c m ≡ done m'
      → is_logged m'.session ≡ true
      → Proves c m.session
  unfolding not_logged always is_logged Proves Login.pass Login.user
  execute-Proves c m m' out run in_ =
      returned (λ m'. is_logged m'.session ≡ true → Proves c m.session) _ m'
        (sym (execute-out c m out) ∙ run) (out-Proves c m out) in_

  user-IsAuthorised :
      (name : Bytes) (m : Machine os) → IsAuthorised m → Returns IsAuthorised (Login.user name m)
  unfolding IsAuthorised Login.user Login.identify Login.enter Login.enter_home send_answer
  user-IsAuthorised name m h =
      let admin = =?→eq name (Option.get_or m.session.config.admin []) in ground (arith, admin, h)

  pass-IsAuthorised :
      (password : Bytes) (m : Machine os)
      → IsAuthorised m
      → Returns IsAuthorised (Login.pass password m)
  unfolding IsAuthorised Login.pass send_answer
  pass-IsAuthorised password m h = ground (arith, h)

  always-IsAuthorised :
      (c : Command) (m : Machine os)
      → IsAuthorised m
      → Returns IsAuthorised (always file_info fuel c m)
  unfolding IsAuthorised always Login.quit send_answer
  always-IsAuthorised (Command.user name) m h = user-IsAuthorised name m h
  always-IsAuthorised c m h = h

  not_logged-IsAuthorised :
      (c : Command) (m : Machine os)
      → IsAuthorised m
      → Returns IsAuthorised (not_logged file_info fuel c m)
  unfolding not_logged
  not_logged-IsAuthorised (Command.pass password) m h = pass-IsAuthorised password m h
  not_logged-IsAuthorised c m h = h

  Same-IsAuthorised : (m m' : Machine os) → IsAuthorised m → Same m m' → IsAuthorised m'
  unfolding IsAuthorised
  Same-IsAuthorised m m' h e = ground (arith, h, e)

  logged-IsAuthorised :
      (c : Command) (m : Machine os)
      → IsAuthorised m
      → Returns IsAuthorised (logged file_info fuel c m)
  logged-IsAuthorised c m h = Returns-of_Ends IsAuthorised (logged file_info fuel c m) (
      Ends-map (Same m) IsAuthorised (logged file_info fuel c m) (logged-Same file_info fuel c m)
        λ m' e. Same-IsAuthorised m m' h e)

  execute-IsAuthorised :
      (c : Command) (m : Machine os)
      → IsAuthorised m
      → Returns IsAuthorised (execute file_info fuel c m)
  unfolding execute
  execute-IsAuthorised c m h =
      Returns-bind IsAuthorised IsAuthorised _ (λ m'. always file_info fuel c m')
        (Returns-if IsAuthorised (is_logged m.session) _ _ (logged-IsAuthorised c m h)
          (not_logged-IsAuthorised c m h))
        λ m' h'. always-IsAuthorised c m' h'

  greet-IsAuthorised : (m : Machine os) → IsAuthorised m → IsAuthorised (greet file_info fuel m)
  unfolding greet IsAuthorised send_answer
  greet-IsAuthorised m h = ground (arith, h)

  handle_msg-IsAuthorised :
      (msg : Option Bytes) (m : Machine os)
      → IsAuthorised m
      → Returns IsAuthorised (handle_msg file_info fuel msg m)
  unfolding handle_msg
  handle_msg-IsAuthorised msg m h =
      Returns-cases IsAuthorised msg (done m)
        (λ line. expect m (frame_of (decode_command line)) λ c. execute file_info fuel c m) h
        λ line.
          Returns-expect IsAuthorised m (frame_of (decode_command line)) _
            λ c. execute-IsAuthorised c m h

  -- If the user of a session is in the configuration, and has the name of the administrator where
  -- the session is marked so, then the same holds whenever `handle_command` returns, whatever
  -- message it has read.
  pub handle_command-IsAuthorised :
      (msg : Option Bytes) (m : Machine os)
      → IsAuthorised m
      → Returns IsAuthorised (handle_command file_info fuel msg m)
  unfolding handle_command
  handle_command-IsAuthorised msg m h =
      Returns-if IsAuthorised (connected m.session.cmd_state)
        (handle_msg file_info fuel msg (greet file_info fuel m)) (done m)
        (handle_msg-IsAuthorised msg (greet file_info fuel m) (greet-IsAuthorised m h)) h

  -- In a session that has no name yet, `execute` panics for PASS, and has changed nothing and sent
  -- nothing by then.
  pub execute-pass_first :
      (password : Bytes) (m : Machine os)
      → m.session.name ≡ none
      → execute file_info fuel (Command.pass password) m ≡ panicked m
  unfolding not_logged Login.pass is_logged
  execute-pass_first password m e =
      let out : is_logged m.session ≡ false = rw (e) refl in
      let first : Login.pass password m ≡ panicked m = rw (e) refl in
      rw (execute-out (Command.pass password) m out, first) refl
