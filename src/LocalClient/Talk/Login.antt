-- ===== src/LocalClient/Talk/Login.antt =====
-- server/local_client.rs and handler/session.rs: the login of the client at a session.
use minifto.Common.{
  ℕ, ◌≡◌, refl, ap, sym, ◌∙◌, Bool, true, false, Bool-cases, Option, inl, inr, ◌⊎◌, some, [], ◌∷◌,
  ◌++◌, Bytes, codes, arith, append-nil, append_assoc, lookup, returns, =?-refl,
}
use minifto.Common.Int.{ℤ, pos}
use minifto.Text.Split.{find_crlf, LacksCrlf}
use minifto.Text.Utf8.{is_utf8, is_utf8_of_ascii, is_utf8-append}
use minifto.Cmd.Code.{ResultCode, number}
use minifto.Cmd.Answer
use minifto.Cmd.Answer.{is_empty}
use minifto.Cmd.Command.{Command, as_ref}
use minifto.Cmd.Parse.RoundTrip.{print, argument, IsWord}
use minifto.Codec.{encode_answer}
use minifto.Codec.Lines.{LacksCrlf-append}
use minifto.Os.{Os}
use minifto.Config.{Config}
use minifto.Session.Login
use minifto.Session.Login.{identify, is_admin_name}
use minifto.Session.State.{Machine, done, is_logged, send_answer, set_session}
use minifto.Session.Dispatch.{execute, greet, connected, always, not_logged}
use minifto.Session.Dispatch.Auth.{execute-out}
use minifto.Session.Dispatch.Wire.{handle_command-encode_bytes}
use minifto.LocalClient.{LocalClient, login, send}
use minifto.LocalClient.Talk.{Pipe, at_session, send_cmd-handle_command}

-- A user with a password is asked for it, as the administrator or not.
identify-known :
    (config : Config) (content secret : Bytes) (c : ℕ)
    → lookup content config.users ≡ some (c ∷ secret)
    → (admin : Bool) × (identify config content ≡ some (admin, some (content, true)))
unfolding identify
identify-known config content secret c e = elim (Bool-cases (is_admin_name config.admin content)) [
  | inl same ↦ (true, rw (same, e) refl)
  | inr other ↦ (false, rw (other, e) refl)
]

abbrev pub welcome_text : Bytes
welcome_text = codes "Welcome, tinyFTPd 3.0.3)"

-- What the session sends first.
abbrev pub greeting : Bytes
greeting = encode_answer (Answer.new ResultCode.service_ready_for_usr welcome_text) []

abbrev asks : Bytes → Bytes
asks name = codes "Login Ok, password needed for " ++ name

module _ {os : Os} where
  -- The greeting is about to be sent, or it has been sent and not been taken.
  abbrev pub Greeted : Pipe os → Type 0
  Greeted p =
      ((p.machine.session.welcome ≡ true) × (p.pending ≡ []))
      ⊎ ((p.machine.session.welcome ≡ false) × (p.pending ≡ greeting))

  -- Someone who can log in: the session is open, nobody is logged in to it, and the user is one with
  -- a password; the name is one word without a line end.
  pub record CanLogin (name : Bytes) (password : Bytes) (p : Pipe os) : Type 0 where
    pub open_session : connected p.machine.session.cmd_state ≡ true
    pub out : is_logged p.machine.session ≡ false
    pub word : IsWord name
    pub some_name : is_empty name ≡ false
    pub line : LacksCrlf name
    pub known : lookup name p.machine.session.config.users ≡ some password
    pub some_password : is_empty password ≡ false

module _ (os : Os) (file_info : Bytes → os.World → Option Bytes) (fuel : ℕ) where
  -- The machine after USER.
  abbrev asked : Bool → Bytes → Machine os → Machine os
  asked admin name m = Login.enter_home name (Login.enter (admin, some (name, true)) m)

  execute-user :
      (name password : Bytes) (m : Machine os)
      → is_logged m.session ≡ false
      → is_empty name ≡ false
      → lookup name m.session.config.users ≡ some password
      → is_empty password ≡ false
      → (admin : Bool) × (execute file_info fuel (Command.user name) m ≡ done (asked admin name m))
  unfolding not_logged always Login.user
  execute-user name [] m out word known text = cc
  execute-user name (c ∷ secret) m out word known text =
      let (admin, found) = identify-known m.session.config name secret c known in
      (admin, execute-out file_info fuel (Command.user name) m out ∙ rw (word, found) refl)

  execute-pass :
      (name password : Bytes) (m : Machine os)
      → is_logged m.session ≡ false
      → m.session.name ≡ some name
      → lookup name m.session.config.users ≡ some password
      → execute file_info fuel (Command.pass password) m
        ≡ done (
            send_answer ResultCode.login
              (codes "Welcome " ++ name)
              (set_session m (record m.session { waiting_password = false })))
  unfolding not_logged always Login.pass
  execute-pass name password m out named known =
      execute-out file_info fuel (Command.pass password) m out
      ∙ rw (named, known, =?-refl password) refl

  abbrev greeted_machine : Pipe os → Machine os
  greeted_machine p = greet file_info fuel (record p.machine { sent = [] })

  greet-Greeted :
      (p : Pipe os)
      → Greeted p
      → (is_logged (greeted_machine p).session ≡ is_logged p.machine.session)
        × ((greeted_machine p).session.config ≡ p.machine.session.config)
        × (p.pending ++ (greeted_machine p).sent ≡ greeting)
  unfolding greet send_answer is_logged
  greet-Greeted p (inl (awaits, e)) = rw (awaits, e) (refl, refl, refl)
  greet-Greeted p (inr (sent, e)) = rw (sent, e) (refl, refl, append-nil greeting)

  -- The line of USER has no end in it, if the name has none.
  LacksCrlf-user : (name : Bytes) → LacksCrlf name → LacksCrlf (codes "USER " ++ name)
  LacksCrlf-user name h = LacksCrlf-append (codes "USER ") name (omega arith) h

  module _ (from_i32 : ℤ → Option ResultCode)
      (from_number : (c : ResultCode) → from_i32 (pos (number c)) ≡ some c) where
    -- Let a user have a password, and nobody be logged in to the session. As long as the client
    -- has not taken the greeting, it takes it for the answer to its USER, since it reads one line
    -- for each command, and does not send the password: `login` returns, and the session is not
    -- logged in. `from_i32` is taken to find every code by its number.
    pub login-greeting :
        (name password : Bytes) (client : LocalClient Unit) (p : Pipe os)
        → client.cmd_conn ≡ some tt
        → CanLogin name password p
        → Greeted p
        → (p' : Pipe os) × (login (at_session os file_info fuel) from_i32 name password (client, p)
            ≡ returns (client, p'))
          × (is_logged p'.machine.session ≡ false)
    unfolding login Answer.new number send_answer is_logged print as_ref argument Login.enter
        Login.enter_home
    login-greeting name password client p bound can greeted =
        let g : Machine os = greeted_machine p in
        let (logged, config, first) = greet-Greeted p greeted in
        let (admin, run) =
          execute-user name password g (logged ∙ can.out) can.some_name
            (ap (λ c. lookup name c.users) config ∙ can.known) can.some_password in
        let answer = encode_answer (Answer.new ResultCode.need_psw (asks name)) [] in
        let m = asked admin name g in
        let sent : p.pending ++ m.sent ≡ greeting ++ answer =
          sym (append_assoc p.pending g.sent answer) ∙ ap (λ s. s ++ answer) first in
        let user =
          send_cmd-handle_command os file_info fuel from_i32 from_number (codes "USER " ++ name)
            answer ResultCode.service_ready_for_usr welcome_text m client p bound
            (handle_command-encode_bytes file_info fuel (Command.user name)
                (record p.machine { sent = [] }) can.open_session can.word
                (LacksCrlf-user name can.line)
              ∙ run)
            sent (is_utf8_of_ascii _ (omega arith)) (unfold find_crlf in refl) refl in
        (record { machine = m; pending = answer }, rw (user) refl, refl)

    -- The message of the session that asks for the password, and the one that welcomes.
    asks-is_utf8 : (name : Bytes) → is_utf8 name ≡ true → is_utf8 (asks name) ≡ true
    asks-is_utf8 name h =
        is_utf8-append (codes "Login Ok, password needed for ") name (omega arith) ∙ h

    greet-none :
        (m : Machine os)
        → m.session.welcome ≡ false
        → greet file_info fuel (record m { sent = [] }) ≡ record m { sent = [] }
    unfolding greet
    greet-none m e = rw (e) refl

    -- A user who has a password logs in by it from a client that has taken the greeting: `login`
    -- returns, the session is logged in, and every answer of the session has been taken. The
    -- session is open and nobody is logged in to it, and name and password are words without a
    -- line end. `from_i32` is taken to find every code by its number.
    pub login-is_logged :
        (name password : Bytes) (client : LocalClient Unit) (p : Pipe os)
        → client.cmd_conn ≡ some tt
        → CanLogin name password p
        → IsWord password
        → LacksCrlf password
        → p.machine.session.welcome ≡ false
        → p.pending ≡ []
        → (p' : Pipe os) × (login (at_session os file_info fuel) from_i32 name password (client, p)
            ≡ returns (client, p'))
          × (is_logged p'.machine.session ≡ true)
          × (p'.pending ≡ [])
    unfolding login send Answer.new number send_answer is_logged print as_ref argument Login.enter
        Login.enter_home
    login-is_logged name password client p bound can word line quiet taken =
        let m0 : Machine os = record p.machine { sent = [] } in
        let (admin, run) =
          execute-user name password m0 can.out can.some_name can.known can.some_password in
        let m1 = asked admin name m0 in
        let user =
          send_cmd-handle_command os file_info fuel from_i32 from_number (codes "USER " ++ name) []
            ResultCode.need_psw (asks name) m1 client p bound
            (handle_command-encode_bytes file_info fuel (Command.user name) m0 can.open_session
                can.word (LacksCrlf-append (codes "USER ") name (omega arith) can.line)
              ∙ (ap (execute file_info fuel (Command.user name)) (greet-none p.machine quiet)
                  ∙ run))
            (ap (λ s. s ++ m1.sent) taken ∙ sym (append-nil m1.sent)) (asks-is_utf8 name can.word.0)
            (LacksCrlf-append (codes "Login Ok, password needed for ") name (omega arith) can.line)
            refl in
        let p1 : Pipe os = record { machine = m1; pending = [] } in
        let m2 = send_answer ResultCode.login (codes "Welcome " ++ name) (
          set_session (record m1 { sent = [] }) (record m1.session { waiting_password = false })) in
        let pass =
          send_cmd-handle_command os file_info fuel from_i32 from_number (codes "PASS " ++ password)
            [] ResultCode.login (codes "Welcome " ++ name) m2 client p1 bound
            (handle_command-encode_bytes file_info fuel (Command.pass password)
                (record m1 { sent = [] }) can.open_session word
                (LacksCrlf-append (codes "PASS ") password (omega arith) line)
              ∙ (ap (execute file_info fuel (Command.pass password)) (greet-none m1 quiet)
                  ∙ execute-pass name password (record m1 { sent = [] }) refl refl can.known))
            (sym (append-nil m2.sent))
            (is_utf8-append (codes "Welcome ") name (omega arith) ∙ can.word.0)
            (LacksCrlf-append (codes "Welcome ") name (omega arith) can.line) refl in
        (record { machine = m2; pending = [] }, rw (user, pass) refl, refl, refl)
