-- ===== src/Session/Dispatch/Keeps/Transfers.antt =====
-- Facts about who is logged in: LIST, RETR and STOR.
use minifto.Common.{
  ℕ, zero, suc, refl, Bool, true, false, not, if◌then◌else◌, Option, none, some, arith, Bytes, ◌+◌,
  codes, length, ltb, ◌++◌,
}
use minifto.Os.{Os}
use minifto.SpeedBarrier
use minifto.SpeedBarrier.{SpeedBarrier}
use minifto.Session.State.{
  Machine, Run, done, panicked, expect, cases, send_answer, set_world, set_session,
}
use minifto.Cmd.Code.{ResultCode}
use mathlib.Core.Option
use minifto.Cmd.Command
use minifto.Common.Int.{pos, is_pos}
use minifto.Text.Utf8.{from_utf8}
use minifto.Session.Transfer
use minifto.Session.Retrieve
use minifto.Session.Store
use minifto.Session.Dispatch.Keeps.{Same, trans_Same, then_Same}
use minifto.Session.Dispatch.Outcome.{Ends, Ends-expect, Ends-if, Ends-cases}

module _ {os : Os} where
  pub list-Same :
      (file_info : Bytes → os.World → Option Bytes) (path : Option Bytes) (add_info : Bool)
      (m : Machine os)
      → Ends (Same m) (Transfer.list file_info path add_info m)
  unfolding Transfer.list send_answer
  list-Same file_info path add_info m = ground arith

  pub send_loop-Same :
      (fuel : ℕ) (b : SpeedBarrier) (c : os.Sock) (f : os.File) (len size : ℕ) (m : Machine os)
      → Ends (Same m) (Retrieve.send_loop fuel b c f len size m)
  unfolding Retrieve.send_loop
  send_loop-Same zero b c f len size m = tt
  send_loop-Same (suc fuel) b c f len size m = sent (os.sendfile c f len size m.world).0 λ n.
      let limited = SpeedBarrier.limit os b n (os.sendfile c f len size m.world).1 in
      send_loop-Same fuel limited.0 c f (len + n) size (set_world m limited.1)
    where
      w : os.World
      w = (os.sendfile c f len size m.world).1

      next : ℕ → Run os
      next n =
          let limited = SpeedBarrier.limit os b n w in
          Retrieve.send_loop fuel limited.0 c f (len + n) size (set_world m limited.1)

      sent :
          (result : Option ℕ)
          → ((n : ℕ) → Ends (Same m) (next n))
          → Ends (Same m) (elim result [
            | none ↦ panicked (set_world m w)
            | some n ↦ if ltb n Retrieve.default_send_size then done (set_world m w) else next n
          ])
      sent none more = refl
      sent (some n) more =
          Ends-if (Same m) (ltb n Retrieve.default_send_size) _ (next n) refl (more n)

  pub receive_loop-Same :
      (fuel : ℕ) (b : SpeedBarrier) (c : os.Sock) (f : os.File) (m : Machine os)
      → Ends (Same m) (Store.receive_loop fuel b c f m)
  unfolding Store.receive_loop
  receive_loop-Same zero b c f m = tt
  receive_loop-Same (suc fuel) b c f m =
      let (buf, w) = os.read_buf c m.world in
      let limited = SpeedBarrier.limit os b (length buf) (os.write f buf w).1 in
      ground (arith, receive_loop-Same fuel limited.0 c f (set_world m limited.1))

  pub send_opened-Same :
      (fuel : ℕ) (c : os.Sock) (path : Bytes) (f : os.File) (m : Machine os)
      → Ends (Same m) (Retrieve.send_opened fuel c path f m)
  unfolding Retrieve.send_opened send_answer
  send_opened-Same fuel c path f m = Ends-expect (Same m) m (os.lstat path m.world) _ refl λ stat.
      then_Same m _ _
        (send_loop-Same fuel (SpeedBarrier.new (os.now m.world) m.session.config.max_speed) c f 0
          stat.st_size m)
        λ m'. refl

  pub send_file-Same :
      (fuel : ℕ) (c : os.Sock) (path : Bytes) (m : Machine os)
      → Ends (Same m) (Retrieve.send_file fuel c path m)
  unfolding Retrieve.send_file send_answer
  send_file-Same fuel c path m =
      let sent : Bytes =
        (send_answer ResultCode.file_status_ok
          (codes "Opening "
            ++ Command.display m.session.transfer_type
            ++ codes " mode data connection for "
            ++ path)
          m).sent in
      let opening : Machine os = record m { sent = sent; world = (os.open_read path m.world).1 } in
      Ends-cases (Same m) (os.open_read path m.world).0 _ _ refl
        λ fd. send_opened-Same fuel c path fd opening

  pub retr_by-Same :
      (fuel : ℕ) (c : os.Sock) (path : Bytes) (m : Machine os)
      → Ends (Same m) (Retrieve.retr_by fuel c path m)
  unfolding Retrieve.retr_by send_answer
  retr_by-Same fuel c path m =
      Ends-expect (Same m) m (from_utf8 path) _ refl
        λ path. let sent = send_file-Same fuel c path m in ground (arith, sent)

  pub get_data_conn-Same :
      (m : Machine os) (k : Machine os → Option os.Sock → Run os)
      → ((m' : Machine os) (conn : Option os.Sock) → Same m m' → Ends (Same m) (k m' conn))
      → Ends (Same m) (Transfer.get_data_conn m k)
  unfolding Transfer.get_data_conn
  get_data_conn-Same m k h =
      let connected : Option os.Sock × os.World =
        os.connect (Option.get_or m.session.data_port 22) m.world in
      Ends-if (Same m) m.session.pasv_enable
        (k (set_session m (record m.session { data_conn = none })) m.session.data_conn)
        (expect (set_world m connected.1) connected.0 λ c. k (set_world m connected.1) (some c))
        (h (set_session m (record m.session { data_conn = none })) m.session.data_conn refl)
        (Ends-expect (Same m) (set_world m connected.1) connected.0 _ refl
          λ c. h (set_world m connected.1) (some c) refl)

  pub by-Same :
      (m : Machine os) (none_run : Machine os → Run os) (some_run : os.Sock → Machine os → Run os)
      → ((m' : Machine os) → Ends (Same m') (none_run m'))
      → ((c : os.Sock) (m' : Machine os) → Ends (Same m') (some_run c m'))
      → Ends
          (Same m)
          (Transfer.get_data_conn m λ m' conn. cases conn (none_run m') λ c. some_run c m')
  by-Same m none_run some_run h k = get_data_conn-Same m _ λ m' conn e.
      Ends-cases (Same m) conn (none_run m') (λ c. some_run c m')
        (trans_Same m m' (none_run m') e (h m')) λ c. trans_Same m m' (some_run c m') e (k c m')

  pub retr-Same :
      (fuel : ℕ) (path : Bytes) (m : Machine os) → Ends (Same m) (Retrieve.retr fuel path m)
  unfolding Retrieve.retr send_answer
  retr-Same fuel path m =
      by-Same m
        (λ m'. done (send_answer ResultCode.conn_close (codes "No opened data connection") m'))
        (λ c m'. Retrieve.retr_by fuel c path m') (λ m'. refl) λ c m'. retr_by-Same fuel c path m'

  pub must-Same :
      (r : Bool × os.World) (m : Machine os) (k : Machine os → Run os)
      → ((m' : Machine os) → Ends (Same m') (k m'))
      → Ends (Same m) (Store.must r m k)
  must-Same (true, w) m k h = h (set_world m w)
  must-Same (false, w) m k h = refl

  pub seek-Same :
      (f : os.File) (m : Machine os) (k : Machine os → Run os)
      → ((m' : Machine os) → Ends (Same m') (k m'))
      → Ends (Same m) (Store.seek f m k)
  unfolding Store.seek
  seek-Same f m k h =
      Ends-if (Same m) (is_pos m.session.resume_point) _ _
        (must-Same (os.lseek f m.session.resume_point m.world) m _
          λ m'. h (set_session m' (record m'.session { resume_point = pos 0 })))
        (must-Same (os.ftruncate f m.world) m _
          λ m'. must-Same (os.lseek f (pos 0) m'.world) m' k h)

  pub store_opened-Same :
      (fuel : ℕ) (c : os.Sock) (path : Bytes) (f : os.File) (m : Machine os)
      → Ends (Same m) (Store.store_opened fuel c path f m)
  unfolding Store.store_opened send_answer
  store_opened-Same fuel c path f m = must-Same (os.flock_exclusive f m.world) m _ λ locked.
      must-Same (os.flock_unlock f locked.world) locked _ λ unlocked.
        seek-Same f unlocked _ λ ready.
          let barrier = SpeedBarrier.new (os.now ready.world) ready.session.config.max_speed in
          then_Same ready (Store.receive_loop fuel barrier c f ready) _
            (receive_loop-Same fuel barrier c f ready)
            λ received.
              must-Same (os.close f received.world) received
                (λ stored. done (
                  send_answer ResultCode.close_data_close
                    (codes "Transfer file " ++ path ++ codes " done")
                    (set_world stored (os.shutdown c stored.world))))
                λ stored. refl

  pub stor_by-Same :
      (fuel : ℕ) (c : os.Sock) (path : Bytes) (m : Machine os)
      → Ends (Same m) (Store.stor_by fuel c path m)
  unfolding Store.stor_by send_answer
  stor_by-Same fuel c path m =
      let starting : Machine os =
        send_answer ResultCode.data_conn_opened (codes "Starting to receive file...") m in
      let absent : Machine os =
        send_answer ResultCode.file_not_found (codes "Couldn't open file")
          (set_world m (os.shutdown c m.world)) in
      Ends-if (Same m) (not m.session.is_admin) (done absent) _ refl (
        Ends-expect (Same m) starting (from_utf8 path) _ refl λ path.
          let opened : Option os.File × os.World =
            os.open_create path Store.default_file_perm starting.world in
          Ends-expect (Same m) (set_world starting opened.1) opened.0 _ refl
            λ file. store_opened-Same fuel c path file (set_world starting opened.1))

  pub stor-Same :
      (fuel : ℕ) (path : Bytes) (m : Machine os) → Ends (Same m) (Store.stor fuel path m)
  unfolding Store.stor send_answer
  stor-Same fuel path m =
      by-Same m
        (λ m'. done (send_answer ResultCode.data_conn_fail (codes "No opened data connection") m'))
        (λ c m'. Store.stor_by fuel c path m') (λ m'. refl) λ c m'. stor_by-Same fuel c path m'

  pub type-Same :
      (t : Command.TransferType) (m : Machine os)
      → Same m (
          send_answer ResultCode.ok
            (codes "Opening " ++ Command.display t ++ codes " mode to transfer files.")
            (set_session m (record m.session { transfer_type = t })))
  unfolding send_answer
  type-Same t m = refl
