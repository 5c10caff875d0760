-- ===== src/Session/Store.antt =====
-- handler/session.rs: STOR. The loop takes fuel.
pub mod Loop
use minifto.Common.{
  ℕ, zero, suc, Bool, true, false, not, Option, none, some, ◌++◌, if◌then◌else◌, Bytes, codes, ◌==◌,
  length,
}
use minifto.Common.Int.{pos, is_pos}
use minifto.Cmd.Code.{ResultCode}
use minifto.Cmd.Answer.{is_empty}
use minifto.Os.{Os}
use minifto.SpeedBarrier
use minifto.SpeedBarrier.{SpeedBarrier}
use minifto.Session.State.{
  Machine, Run, done, panicked, out_of_fuel, ◌>>=◌, expect, cases, with_str, send_answer,
  set_session, set_world,
}
use minifto.Session.Transfer.{get_data_conn}

-- `DEAFULT_FILE_PERM`, a hexadecimal number in the source.
abbrev pub default_file_perm : ℕ
default_file_perm = 0x666

module _ {os : Os} where
  -- A call that is unwrapped.
  abbrev pub must : Bool × os.World → Machine os → (Machine os → Run os) → Run os
  must (true, w) m k = k (set_world m w)
  must (false, w) m k = panicked (set_world m w)

  -- Where `stor` begins to write: a positive restart point is used once.
  unfoldable pub seek : os.File → Machine os → (Machine os → Run os) → Run os
  seek file m k =
      if is_pos m.session.resume_point
      then (must (os.lseek file m.session.resume_point m.world) m
          λ m'. k (set_session m' (record m'.session { resume_point = pos 0 })))
      else must (os.ftruncate file m.world) m λ m'. must (os.lseek file (pos 0) m'.world) m' k

  -- The loop of `stor`, which ends at the end of the stream or when a write fails or writes
  -- nothing.
  unfoldable pub receive_loop : (fuel : ℕ) → SpeedBarrier → os.Sock → os.File → Machine os → Run os
  receive_loop zero barrier c file m = out_of_fuel
  receive_loop (suc fuel) barrier c file m =
      let (buf, w) = os.read_buf c m.world in
      let (written, w') = os.write file buf w in
      let limited : SpeedBarrier × os.World = SpeedBarrier.limit os barrier (length buf) w' in
      let again = receive_loop fuel limited.0 c file (set_world m limited.1) in
      if is_empty buf then done (set_world m w) else elim written [
        | none ↦ done (set_world m w')
        | some n ↦ if n == 0 then done (set_world m w') else again
      ]

  -- What `stor` does with the open file. The lock is a temporary: it is dropped, and so
  -- released, at the end of its statement.
  unfoldable pub store_opened : (fuel : ℕ) → os.Sock → Bytes → os.File → Machine os → Run os
  unfolding seek receive_loop SpeedBarrier.new
  store_opened fuel c path file m = must (os.flock_exclusive file m.world) m λ locked.
      must (os.flock_unlock file locked.world) locked λ unlocked. seek file unlocked λ ready.
        let barrier = SpeedBarrier.new (os.now ready.world) ready.session.config.max_speed in
        receive_loop fuel barrier c file ready >>= λ received.
        must (os.close file received.world) received λ stored. done (
          send_answer ResultCode.close_data_close (codes "Transfer file " ++ path ++ codes " done")
            (set_world stored (os.shutdown c stored.world)))

  -- `stor` with a data connection.
  unfoldable pub stor_by : (fuel : ℕ) → os.Sock → Bytes → Machine os → Run os
  unfolding store_opened
  stor_by fuel c path m =
      let starting : Machine os =
        send_answer ResultCode.data_conn_opened (codes "Starting to receive file...") m in
      let absent : Machine os =
        send_answer ResultCode.file_not_found (codes "Couldn't open file")
          (set_world m (os.shutdown c m.world)) in
      if not m.session.is_admin
      then done absent
      else with_str starting path λ path.
        let opened : Option os.File × os.World =
          os.open_create path default_file_perm starting.world in
        expect (set_world starting opened.1) opened.0
          λ file. store_opened fuel c path file (set_world starting opened.1)

  -- `stor`
  unfoldable pub stor : (fuel : ℕ) → Bytes → Machine os → Run os
  unfolding get_data_conn stor_by
  stor fuel path m = get_data_conn m λ m' conn.
      cases conn
        (done (send_answer ResultCode.data_conn_fail (codes "No opened data connection") m'))
        λ c. stor_by fuel c path m'
