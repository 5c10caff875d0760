-- ===== src/Session/Dispatch.antt =====
-- handler/session.rs: `handle_command`, from the message that `read_msg` has returned.
pub mod Outcome
pub mod Keeps
pub mod Auth
pub mod Wire
pub mod Access
pub mod Removal
use minifto.Common.{
  ℕ, Bool, true, false, not, Option, none, some, ◌∷◌, ◌++◌, if◌then◌else◌, Bytes, codes, Fallible,
  returns, panics, ok, err,
}
use minifto.Cmd.Code.{ResultCode}
use minifto.Cmd.Command
use minifto.Cmd.Command.{Command, TransferType}
use minifto.Codec.{Decoded, decode_command}
use minifto.Os.{Os}
use minifto.Session.State.{
  ConnState, Session, Machine, Run, done, panicked, ◌>>=◌, cases, expect, send_answer, set_session,
  is_logged, to_absolute,
}
use minifto.Session.Login
use minifto.Session.Files
use minifto.Session.Transfer
use minifto.Session.Retrieve
use minifto.Session.Store

-- `self.cmd_conn.connected()`
abbrev pub connected : ConnState → Bool
connected ConnState.closed = false
connected _ = true

-- `self.codec.decode(&mut msg).unwrap().unwrap()`
abbrev pub frame_of : Decoded Command → Option Command
frame_of (returns (ok frame)) = frame
frame_of (returns (err e)) = none
frame_of panics = none

-- `file_info` stands for `add_file_info`, and `fuel` bounds every loop.
module _ {os : Os} (file_info : Bytes → os.World → Option Bytes) (fuel : ℕ) where
  -- The first match, for a session that is logged in.
  unfoldable pub logged : Command → Machine os → Run os
  logged (Command.cwd dir) m = Login.cwd (to_absolute m.session dir) m
  logged Command.cd_up m = Login.cdup m
  logged (Command.port number) m = Transfer.port number m
  logged Command.pasv m = Transfer.pasv m
  logged (Command.type t) m = done (
      send_answer ResultCode.ok
        (codes "Opening " ++ Command.display t ++ codes " mode to transfer files.")
        (set_session m (record m.session { transfer_type = t })))
  logged (Command.list path) m = Transfer.list file_info path true m
  logged (Command.n_lst path) m = Transfer.list file_info path false m
  logged Command.pwd m = Login.pwd m
  logged (Command.size path) m = Files.size (to_absolute m.session path) m
  logged (Command.help content) m = Files.help content m
  logged (Command.stor path) m = Store.stor fuel (to_absolute m.session path) m
  logged (Command.retr path) m = Retrieve.retr fuel (to_absolute m.session path) m
  logged (Command.mkd path) m = Files.mkd (to_absolute m.session path) m
  logged (Command.rmd path) m = Files.rmd fuel (to_absolute m.session path) m
  logged (Command.delete path) m = Files.delete (to_absolute m.session path) m
  logged (Command.rnfr path) m = Files.rnfr (to_absolute m.session path) m
  logged (Command.rnto path) m = Files.rnto (to_absolute m.session path) m
  logged (Command.site contents) m = Files.site contents m
  logged (Command.rest content) m = Files.rest content m
  logged Command.abort m = Login.abort m
  logged _ m = done m

  -- `else if let Command::Pass(content)`
  unfoldable pub not_logged : Command → Machine os → Run os
  not_logged (Command.pass content) m = Login.pass content m
  not_logged _ m = done m

  -- The second match, for every session.
  unfoldable pub always : Command → Machine os → Run os
  always (Command.user content) m = Login.user content m
  always Command.quit m = Login.quit m
  always Command.syst m = done (send_answer ResultCode.ok os.uname m)
  always Command.acct m = done (send_answer ResultCode.cmd_not_impl (codes "Not implemented") m)
  always Command.no_op m = done (send_answer ResultCode.ok (codes "Doing nothing") m)
  always (Command.unknown s) m =
      done (send_answer ResultCode.syntax_err (b'"' ∷ (s ++ codes "\": not implemented")) m)
  always _ m = done m

  -- What is done with a command.
  unfoldable pub execute : Command → Machine os → Run os
  unfolding logged not_logged always is_logged
  execute c m = (if is_logged m.session then logged c m else not_logged c m) >>= λ m'. always c m'

  -- The greeting, once.
  unfoldable pub greet : Machine os → Machine os
  greet m =
      if m.session.welcome
      then send_answer ResultCode.service_ready_for_usr (codes "Welcome, tinyFTPd 3.0.3)")
          (set_session m (record m.session { welcome = false }))
      else m

  -- `handle_command` after the greeting; `msg` is what `read_msg` returned.
  unfoldable pub handle_msg : (msg : Option Bytes) → Machine os → Run os
  unfolding execute
  handle_msg msg m =
      cases msg (done m) λ line. expect m (frame_of (decode_command line)) λ c. execute c m

  -- `handle_command`
  unfoldable pub handle_command : (msg : Option Bytes) → Machine os → Run os
  unfolding handle_msg greet
  handle_command msg m = if connected m.session.cmd_state then handle_msg msg (greet m) else done m
