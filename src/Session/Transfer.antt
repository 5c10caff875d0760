-- ===== src/Session/Transfer.antt =====
-- handler/session.rs: the data connection, and the handlers of PORT, PASV, LIST and NLST.
use minifto.Common.{
  ℕ, ◌+◌, ◌/◌, ◌%◌, ◌^◌, Bool, true, false, not, Option, none, some, List, [], ◌∷◌, ◌++◌, map,
  if◌then◌else◌, Bytes, codes,
}
use minifto.Text.Decimal.{show}
use minifto.Text.Path.{join}
use minifto.Text.Utf8.{from_utf8, from_utf8_lossy}
use minifto.Cmd.Code.{ResultCode}
use minifto.Codec.{crlf}
use minifto.Os.{Os, Entry}
use minifto.Session.State.{
  Machine, Run, done, expect, send_answer, set_session, set_world, to_absolute,
}
use minifto.Session.Names.{sort, name_lines, info_lines}
use mathlib.Core.Option

-- The port that `pasv` listens at, in 16 bits.
unfoldable pub pasv_port : Option ℕ → ℕ
pasv_port none = 22
pasv_port (some n) = (n + 2) % 2 ^ 16

module _ {os : Os} where
  -- `get_data_conn`: the passive connection is taken, or one is made to the data port.
  unfoldable pub get_data_conn : Machine os → (Machine os → Option os.Sock → Run os) → Run os
  get_data_conn m k =
      let port : ℕ = Option.get_or m.session.data_port 22 in
      let connected : Option os.Sock × os.World = os.connect port m.world in
      if m.session.pasv_enable
      then k (set_session m (record m.session { data_conn = none })) m.session.data_conn
      else expect (set_world m connected.1) connected.0 λ c. k (set_world m connected.1) (some c)

  -- `port`
  unfoldable pub port : ℕ → Machine os → Run os
  port number m = done (
      send_answer ResultCode.ok (codes "PORT command successful, data port is now " ++ show number)
        (set_session m (record m.session { pasv_enable = false; data_port = some number })))

  -- `pasv`: the answer is sent between the bind and the accept.
  unfoldable pub pasv : Machine os → Run os
  unfolding pasv_port
  pasv m =
      let passive : Machine os = set_session m (record m.session { pasv_enable = true }) in
      let port : ℕ = pasv_port m.session.data_port in
      let bound : Option os.Listener × os.World = os.bind port m.world in
      expect (set_world passive bound.1) bound.0 λ listener.
        let answered : Machine os =
          send_answer ResultCode.pass_mode
            (codes "Entering Passive Mode (127,0,0,1,"
              ++ show (port / 256)
              ++ b',' ∷ show (port % 256)
              ++ codes ")")
            (set_world passive bound.1) in
        let accepted : Option os.Sock × os.World = os.accept listener answered.world in
        expect (set_world answered accepted.1) accepted.0 λ s. done (record answered {
          world = accepted.1;
          session = record answered.session { data_conn = some s };
        })

  -- What `list` sends, or `none` where it panics. The names of a directory are joined to the
  -- current directory, whatever directory was asked for.
  unfoldable pub listing :
      (file_info : Bytes → os.World → Option Bytes) → Bytes → Bool → Machine os → Option Bytes
  unfolding info_lines name_lines sort
  listing file_info path add_info m = elim (os.is_dir path m.world) [
    | true ↦ elim (os.read_dir path m.world) [
      | none ↦ none
      | some entries ↦
          let names : List Bytes =
            map (λ x. from_utf8_lossy (join m.session.cur_dir x))
              (sort (map (λ e. from_utf8_lossy (Entry.name e)) entries)) in
          if add_info then info_lines (λ s. file_info s m.world) names else name_lines names
    ]
    | false ↦ elim (from_utf8 path) [
      | none ↦ none
      | some text ↦ if add_info then file_info text m.world else some (text ++ crlf)
    ]
  ]

  -- `list`, for LIST and NLST; `file_info` stands for `add_file_info`.
  unfoldable pub list :
      (file_info : Bytes → os.World → Option Bytes) → Option Bytes → Bool → Machine os → Run os
  unfolding get_data_conn listing
  list file_info path add_info m = get_data_conn m λ m' conn. elim conn [
    | none ↦ done (send_answer ResultCode.conn_close (codes "No opened data connection") m')
    | some c ↦
        let path : Bytes = to_absolute m'.session (Option.get_or path (codes ".")) in
        if not (os.access (Option.get_or (from_utf8 path) []) m'.world)
        then done (send_answer ResultCode.file_not_found (codes "File not found") m')
        else (let started : Machine os =
              send_answer ResultCode.file_status_ok (codes "Starting to list directory...") m' in
            expect started (listing file_info path add_info started) λ out. done (
              send_answer ResultCode.close_data_close (codes "Directory send Ok")
                (set_world started (os.shutdown c (os.send c out started.world)))))
  ]
