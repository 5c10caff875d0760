-- ===== src/Session/Login.antt =====
-- handler/session.rs: the handlers of USER, PASS, QUIT, CWD, CDUP, PWD, HELP and ABOR.
use minifto.Common.{
  Bool, true, false, ◌&&◌, not, Option, none, some, [], ◌∷◌, ◌++◌, if◌then◌else◌, Bytes, codes,
  ◌=?◌, lookup,
}
use minifto.Text.Path.{join}
use minifto.Text.Utf8.{from_utf8}
use minifto.Cmd.Code.{ResultCode}
use minifto.Cmd.Answer.{is_empty}
use minifto.Config.{Config}
use minifto.Os.{Os}
use minifto.Session.State.{
  ConnState, Machine, Run, done, panicked, expect, with_str, send_answer, set_session,
}
use mathlib.Core.Option

-- A panic, or whom `user` takes the name for: the administrator or not, and the name with
-- whether a password is required, if it is known.
abbrev Identity : Type 0
Identity = Bool × Option (Bytes × Bool)

-- `name = Some(content)` with `!self.config.users[&content].is_empty()`, which panics without
-- an entry.
abbrev admin_identity : Option Bytes → Bytes → Option Identity
admin_identity none content = none
admin_identity (some password) content = some (true, some (content, not (is_empty password)))

abbrev user_identity : Option Bytes → Bytes → Identity
user_identity none content = (false, none)
user_identity (some password) content = (false, some (content, not (is_empty password)))

abbrev pub is_admin_name : Option Bytes → Bytes → Bool
is_admin_name none content = false
is_admin_name (some admin) content = content =? admin

-- `none` is the panic.
unfoldable pub identify : Config → Bytes → Option Identity
identify config content =
    if is_admin_name config.admin content
    then admin_identity (lookup content config.users) content
    else some (user_identity (lookup content config.users) content)

module _ {os : Os} where
  -- `pass`: both branches on `is_admin` compare with the same password.
  unfoldable pub pass : Bytes → Machine os → Run os
  pass content m = expect m m.session.name λ name.
      expect m (lookup name m.session.config.users) λ password. done (
        if content =? password
        then send_answer ResultCode.login (codes "Welcome " ++ name)
            (set_session m (record m.session { waiting_password = false }))
        else send_answer ResultCode.long_pass_mode (codes "Invalid password....") m)

  -- The session and the answer once the name is known or not.
  unfoldable pub enter : Identity → Machine os → Machine os
  enter (admin, none) m =
      send_answer ResultCode.not_login (codes "Unknown user...")
        (set_session m (record m.session { is_admin = admin }))
  enter (admin, some (name, true)) m =
      send_answer ResultCode.need_psw (codes "Login Ok, password needed for " ++ name) (
        set_session m
          (record m.session { is_admin = admin; name = some name; waiting_password = true }))
  enter (admin, some (name, false)) m = send_answer ResultCode.login (codes "Login successful.") (
      set_session m
        (record m.session { is_admin = admin; name = some name; waiting_password = false }))

  -- The directory that `user` ends in.
  unfoldable pub enter_home : Bytes → Machine os → Machine os
  enter_home name m =
      let user_dir : Bytes = join (codes "/home") name in
      set_session m (record m.session {
        cur_dir = if os.exists user_dir m.world then user_dir else join m.session.cur_dir name;
      })

  -- `user`
  unfoldable pub user : Bytes → Machine os → Run os
  unfolding enter enter_home identify
  user content m =
      if is_empty content
      then done (send_answer ResultCode.cmd_not_cmpl_param (codes "Invaild username") m)
      else elim (identify m.session.config content) [
        | none ↦ panicked (set_session m (record m.session { is_admin = true }))
        | some identity ↦
            done
              (enter_home (Option.get_or (Option.map (λ e. e.0) identity.1) []) (enter identity m))
      ]

  -- `quit`, and the shutdown of the command connection.
  unfoldable pub quit : Machine os → Run os
  quit m =
      let m' : Machine os = send_answer ResultCode.service_close_ctl_con (codes "Goodbye") m in
      done (set_session m' (record m'.session { cmd_state = ConnState.closed }))

  abbrev change_dir : Option Bytes → Machine os → Machine os
  change_dir none m = send_answer ResultCode.file_not_found (codes "No such file or directory") m
  change_dir (some dir) m =
      send_answer ResultCode.file_act_ok (codes "Change current path successfully")
        (set_session m (record m.session { cur_dir = dir }))

  -- `cwd`
  unfoldable pub cwd : Bytes → Machine os → Run os
  cwd dir m = with_str m dir λ directory. done (
      change_dir
        (if os.access directory m.world && os.is_dir dir m.world
          then os.canonicalize dir m.world
          else none)
        m)

  -- `cdup`
  unfoldable pub cdup : Machine os → Run os
  cdup m = done (change_dir (os.canonicalize (join m.session.cur_dir (codes "..")) m.world) m)

  -- `pwd`; `to_str().unwrap_or("")`
  unfoldable pub pwd : Machine os → Run os
  pwd m =
      let message : Bytes = Option.get_or (from_utf8 m.session.cur_dir) [] in
      done (
        if is_empty message
        then send_answer ResultCode.file_not_found (codes "No such file or directory") m
        else send_answer ResultCode.creat_path (b'"' ∷ (message ++ codes "\"")) m)

  -- `abort`
  unfoldable pub abort : Machine os → Run os
  abort m = done (send_answer ResultCode.close_data_close (codes "No transfer to Abort!") m)
