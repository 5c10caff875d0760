-- ===== src/Session/Files.antt =====
-- handler/session.rs: the handlers of DELE, RNFR, RNTO, SITE, SIZE, REST and HELP, and `is_regular`
-- of utils/utils.rs.
pub mod Directories
use minifto.Common.{
  ℕ, zero, suc, ◌-◌, ◌^◌, Bool, true, false, ◌&&◌, ◌||◌, not, none, some, List, [], ◌∷◌, ◌++◌,
  if◌then◌else◌, Bytes, codes, ◌=?◌, lookup, from_pairs, leb,
}
use minifto.Common.Int.{ℤ, pos, negsuc}
use minifto.Text.Decimal.{show, parse_unsigned, parse_signed}
use minifto.Text.Path.{is_absolute, join, file_name}
use minifto.Text.Utf8.{from_utf8, from_utf8_lossy}
use minifto.Cmd.Code.{ResultCode}
use minifto.Os.{Os, Entry, has_flag, s_ifreg}
use minifto.Session.State.{
  Machine, Run, done, panicked, out_of_fuel, ◌>>=◌, expect, with_str, send_answer, set_session,
  set_world,
}
unfoldable pub use minifto.Session.Files.Directories.{
  mode_all, mkd, remove_entries, remove_dir_all, rmd,
}
use mathlib.Core.Option

-- `Mode::from_bits(mode).unwrap_or(Mode::all())`: the bits are those of `Mode::all()`.
abbrev pub from_bits_or_all : ℕ → ℕ
from_bits_or_all mode = if leb mode mode_all then mode else mode_all

abbrev pub u32_max : ℕ
u32_max = 2 ^ 32 - 1

abbrev pub i64_max : ℕ
i64_max = 2 ^ 63 - 1

-- `Display` of an `i64`
unfoldable pub show_signed : ℤ → Bytes
show_signed (pos n) = show n
show_signed (negsuc n) = b'-' ∷ show (suc n)

-- `get_help_map`
unfoldable pub help_map : List (Bytes × Bytes)
unfolding from_pairs
help_map = from_pairs (
    (codes "open", codes "open hostname [ port ] - open new connection")
    ∷ (codes "user", codes "user username - send new user information")
    ∷ (codes "cd", codes "cd remote-directory - change remote working directory")
    ∷ (codes "ls", codes "ls [ remote-directory ] - print list of files in the remote directory")
    ∷ (codes "put", codes "put local-file [ remote-file ] - store a file at the server")
    ∷ (codes "pwd", codes "get remote-file [ local-file ] - retrieve a copy of the file")
    ∷ (codes "mkdir", codes "pwd - print the current working directory name")
    ∷ (codes "rmdir", codes "mkdir directory-name - make a directory on the remote machine")
    ∷ (codes "del", codes "rmdir directory-name - remove a directory")
    ∷ (codes "del", codes "del remote-file - delete a file")
    ∷ (codes "binary", codes "binary - set binary transfer type")
    ∷ (codes "size", codes "size remote-file - show size of remote file")
    ∷ (codes "stat", codes "stat [ remote-file ] - print server information")
    ∷ (codes "syst", codes "syst - show remote system type")
    ∷ (codes "noop", codes "noop - no operation")
    ∷ (codes "close", codes "close - close current connection")
    ∷ (codes "help", codes "help - print list of ftp commands")
    ∷ (codes "exit", codes "exit - exit program")
    ∷ [])

module _ {os : Os} where
  -- `is_regular(path)`: `lstat(path).unwrap()`, and the test of one bit of the type.
  abbrev pub is_regular : Machine os → Bytes → (Bool → Run os) → Run os
  is_regular m path k = expect m (os.lstat path m.world) λ stat. k (has_flag stat.st_mode s_ifreg)

  -- `is_exist(path) && is_regular(path)`: the second test is made only if the first holds.
  abbrev pub is_file : Machine os → Bytes → (Bool → Run os) → Run os
  is_file m path k = elim (os.access path m.world) [ true ↦ is_regular m path k | false ↦ k false ]

  abbrev deleted : Bytes → Bool × os.World → Machine os → Machine os
  deleted name (true, w) m =
      send_answer ResultCode.file_act_ok (codes "File " ++ name ++ codes " successufully removed")
        (set_world m w)
  deleted name (false, w) m =
      send_answer ResultCode.file_not_found (codes "Couldn't remove file " ++ name) (set_world m w)

  -- `delete`: the name for the answer is unwrapped after the file has gone.
  unfoldable pub delete : Bytes → Machine os → Run os
  delete path m =
      let path : Bytes = if is_absolute path then path else join m.session.cur_dir path in
      with_str m path λ text. is_file m text λ regular.
        let result : Bool × os.World =
          if regular then os.unlink path m.world else (false, m.world) in
        expect (set_world m result.1) (file_name path)
          λ name. with_str (set_world m result.1) name λ name. done (deleted name result m)

  -- `rnfr`; `is_admin` is tested first.
  unfoldable pub rnfr : Bytes → Machine os → Run os
  rnfr path m = with_str m path λ name.
      let ready = done (
        send_answer ResultCode.file_action_pending (codes "Ready for rename file " ++ name)
          (set_session m (record m.session { file_name = some name }))) in
      let refused =
        done (send_answer ResultCode.file_not_found (codes "Couldn't rename file " ++ name) m) in
      elim m.session.is_admin [
        | false ↦ refused
        | true ↦ is_file m name λ regular. if regular then ready else refused
      ]

  abbrev renamed : Bytes → Bytes → Bool × os.World → Machine os → Machine os
  renamed old new (true, w) m =
      send_answer ResultCode.file_act_ok
        (codes "Rename file " ++ old ++ codes " successful rename to " ++ new) (set_world m w)
  renamed old new (false, w) m =
      send_answer ResultCode.file_name_not_allow (codes "Coldn't rename file") (set_world m w)

  -- `rnto`
  unfoldable pub rnto : Bytes → Machine os → Run os
  rnto path m =
      let forgotten : Machine os = set_session m (record m.session { file_name = none }) in
      let new_file : Bytes = from_utf8_lossy path in
      elim m.session.file_name [
        | none ↦ done (renamed [] new_file (false, m.world) forgotten)
        | some old ↦ is_file m old λ regular. done (
            if regular
            then renamed old new_file (os.renameat old new_file m.world) forgotten
            else renamed old new_file (false, m.world) forgotten)
      ]

  abbrev unknown_site : List Bytes → Machine os → Machine os
  unknown_site contents m =
      send_answer ResultCode.bad_cmd_seq
        (codes "Unknown site command: " ++ os.debug contents ++ codes ".") m

  abbrev changed_mode : List Bytes → ℕ → Bytes → Bool × os.World → Machine os → Machine os
  changed_mode contents mode path (true, w) m =
      send_answer ResultCode.ok (codes "chmod " ++ show mode ++ b' ' ∷ path) (set_world m w)
  changed_mode contents mode path (false, w) m = unknown_site contents (set_world m w)

  -- `site`, by the number of words: `umask MODE` and `chmod MODE PATH`.
  unfoldable pub site : List Bytes → Machine os → Run os
  site (a ∷ b ∷ []) m = done (
      if a =? codes "umask"
      then elim (parse_unsigned u32_max b) [
        | none ↦ unknown_site (a ∷ b ∷ []) m
        | some mode ↦
            send_answer ResultCode.ok (codes "UMASK set to " ++ show mode)
              (set_session m (record m.session { mode = mode }))
      ]
      else unknown_site (a ∷ b ∷ []) m)
  site (a ∷ b ∷ c ∷ []) m = done (
      if a =? codes "chmod"
      then elim (parse_unsigned u32_max b) [
        | none ↦ unknown_site (a ∷ b ∷ c ∷ []) m
        | some mode ↦
            changed_mode (a ∷ b ∷ c ∷ []) mode c (os.fchmodat c (from_bits_or_all mode) m.world) m
      ]
      else unknown_site (a ∷ b ∷ c ∷ []) m)
  site contents m = done (unknown_site contents m)

  -- `rest`
  unfoldable pub rest : Bytes → Machine os → Run os
  rest content m = elim (parse_signed i64_max content) [
    | none ↦ done (send_answer ResultCode.bad_cmd_seq (codes "Couldn't restart break point") m)
    | some n ↦ done (
        send_answer ResultCode.file_action_pending
          (codes "Restarting at "
            ++ show_signed n
            ++ codes ". execute get, put or append to initiate transfer")
          (set_session m (record m.session { resume_point = n })))
  ]

  -- `size`; an `lstat` that fails panics in `is_regular` already.
  unfoldable pub size : Bytes → Machine os → Run os
  size path m =
      let absent =
        done (send_answer ResultCode.file_not_found (codes "Could not get file size.") m) in
      is_file m (from_utf8_lossy path) λ regular.
        if regular
        then elim (os.lstat path m.world) [
          | none ↦ absent
          | some stat ↦ done (send_answer ResultCode.file_status (show stat.st_size) m)
        ]
        else absent

  -- `help`
  unfoldable pub help : Bytes → Machine os → Run os
  help content m = done (elim (lookup content help_map) [
    | some message ↦ send_answer ResultCode.help_msg message m
    | none ↦ send_answer ResultCode.syntax_err (codes "?Invalid help command " ++ content) m
  ])
