-- ===== src/Session/Retrieve.antt =====
-- handler/session.rs: RETR. The loop takes fuel.
pub mod Loop
use minifto.Common.{
  ℕ, zero, suc, ◌+◌, ◌*◌, ◌&&◌, Option, none, some, ◌++◌, if◌then◌else◌, Bytes, codes, ltb,
}
use minifto.Cmd.Code.{ResultCode}
use minifto.Cmd.Command
use minifto.Os.{Os}
use minifto.SpeedBarrier
use minifto.SpeedBarrier.{SpeedBarrier}
use minifto.Session.State.{
  Machine, Run, done, panicked, out_of_fuel, ◌>>=◌, expect, cases, with_str, send_answer, set_world,
}
use minifto.Session.Files.{is_file}
use minifto.Session.Transfer.{get_data_conn}

-- `DEAFULT_SEND_SIZE`
abbrev pub default_send_size : ℕ
default_send_size = 128 * 1024

module _ {os : Os} where
  -- The loop of `retr`: it ends after a call that sends less than `DEAFULT_SEND_SIZE`, and
  -- `unwrap` panics on an error of `sendfile`.
  unfoldable pub send_loop :
      (fuel : ℕ) → SpeedBarrier → os.Sock → os.File → (len size : ℕ) → Machine os → Run os
  send_loop zero barrier c file len size m = out_of_fuel
  send_loop (suc fuel) barrier c file len size m =
      let (result, w) = os.sendfile c file len size m.world in
      elim result [
        | none ↦ panicked (set_world m w)
        | some n ↦
            let limited : SpeedBarrier × os.World = SpeedBarrier.limit os barrier n w in
            let again = send_loop fuel limited.0 c file (len + n) size (set_world m limited.1) in
            if ltb n default_send_size then done (set_world m w) else again
      ]

  -- What `retr` does once the file is open.
  unfoldable pub send_opened : (fuel : ℕ) → os.Sock → Bytes → os.File → Machine os → Run os
  unfolding send_loop SpeedBarrier.new
  send_opened fuel c path file m = expect m (os.lstat path m.world) λ stat.
      let barrier = SpeedBarrier.new (os.now m.world) m.session.config.max_speed in
      send_loop fuel barrier c file 0 stat.st_size m >>= λ m'.
      let closed : Machine os = set_world m' (os.shutdown c m'.world) in
      let answered : Machine os =
        send_answer ResultCode.close_data_close (codes "Transfer " ++ path ++ codes " complete")
          closed in
      done (set_world answered (os.shutdown c answered.world))

  -- The answer of `retr` without a transfer.
  abbrev not_sent : os.Sock → Bytes → Machine os → Run os
  not_sent c path m =
      let answered : Machine os =
        send_answer ResultCode.file_not_found
          (codes "Failed to open file " ++ path ++ codes ", please check file") m in
      done (set_world answered (os.shutdown c answered.world))

  -- What `retr` does with a regular file.
  unfoldable pub send_file : (fuel : ℕ) → os.Sock → Bytes → Machine os → Run os
  unfolding send_opened
  send_file fuel c path m =
      let opening : Machine os =
        send_answer ResultCode.file_status_ok
          (codes "Opening "
            ++ Command.display m.session.transfer_type
            ++ codes " mode data connection for "
            ++ path)
          m in
      let opened : Option os.File × os.World = os.open_read path opening.world in
      cases opened.0 (not_sent c path (set_world opening opened.1))
        λ fd. send_opened fuel c path fd (set_world opening opened.1)

  -- `retr` with a data connection.
  unfoldable pub retr_by : (fuel : ℕ) → os.Sock → Bytes → Machine os → Run os
  unfolding send_file
  retr_by fuel c path m = with_str m path λ path. is_file m path λ regular.
      if regular && m.session.is_admin then send_file fuel c path m else not_sent c path m

  -- `retr`
  unfoldable pub retr : (fuel : ℕ) → Bytes → Machine os → Run os
  unfolding get_data_conn retr_by
  retr fuel path m = get_data_conn m λ m' conn.
      cases conn (done (send_answer ResultCode.conn_close (codes "No opened data connection") m'))
        λ c. retr_by fuel c path m'
