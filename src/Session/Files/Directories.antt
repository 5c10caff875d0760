-- ===== src/Session/Files/Directories.antt =====
-- handler/session.rs: the handlers of MKD and RMD, with `remove_dir_all`.
use minifto.Common.{
  ℕ, zero, suc, Bool, true, false, ◌&&◌, ◌||◌, not, List, [], ◌∷◌, ◌++◌, if◌then◌else◌, Bytes,
  codes, ◌=?◌,
}
use minifto.Text.Utf8.{from_utf8}
use minifto.Cmd.Code.{ResultCode}
use minifto.Os.{Os, Entry}
use minifto.Session.State.{
  Machine, Run, done, panicked, out_of_fuel, ◌>>=◌, expect, with_str, send_answer, set_world,
}
use mathlib.Core.Option

-- `Mode::all()`
abbrev pub mode_all : ℕ
mode_all = 0o7777

module _ {os : Os} where
  abbrev created : Bytes → Bool × os.World → Machine os → Machine os
  created path (true, w) m =
      send_answer ResultCode.file_act_ok (codes "Folder " ++ path ++ codes " successfully created!")
        (set_world m w)
  created path (false, w) m =
      send_answer ResultCode.file_name_not_allow (codes "Couldn't create folder") (set_world m w)

  -- `mkd`
  unfoldable pub mkd : Bytes → Machine os → Run os
  mkd path m = with_str m path λ path. done (
      if m.session.is_admin && not (os.access path m.world)
      then created path (os.mkdir path mode_all m.world) m
      else created path (false, m.world) m)

  -- The loop of `remove_dir_all` over the entries; `remove` is the call for a directory, whose
  -- result is dropped. The entries are taken by their names alone.
  unfoldable pub remove_entries : (Bytes → Machine os → Run os) → List Entry → Machine os → Run os
  remove_entries remove [] m = done m
  remove_entries remove (e ∷ entries) m =
      let rest = λ (m' : Machine os). remove_entries remove entries m' in
      let unlinked : Bool × os.World = os.unlink e.name m.world in
      if (e.name =? codes ".") || (e.name =? codes "..")
      then rest m
      else if e.directory
      then remove e.name m >>= rest
      else if unlinked.0
      then rest (set_world m unlinked.1)
      else panicked (set_world m unlinked.1)

  -- `remove_dir_all`. It returns `false` for a path that is no directory, and else `true`; the
  -- result is the machine either way, since `rmd` has made the test before.
  unfoldable pub remove_dir_all : (fuel : ℕ) → Bytes → Machine os → Run os
  unfolding remove_entries
  remove_dir_all zero path m = out_of_fuel
  remove_dir_all (suc fuel) path m = elim (os.is_dir path m.world) [
    | false ↦ done m
    | true ↦ expect m (os.read_dir path m.world) λ entries.
        remove_entries (remove_dir_all fuel) entries m >>= λ m'.
        let unlinked : Bool × os.World = os.unlink path m'.world in
        if unlinked.0 then done (set_world m' unlinked.1) else panicked (set_world m' unlinked.1)
  ]

  -- `rmd`
  unfoldable pub rmd : (fuel : ℕ) → Bytes → Machine os → Run os
  unfolding remove_dir_all
  rmd fuel path m =
      if m.session.is_admin
        && (os.access (Option.get_or (from_utf8 path) []) m.world && os.is_dir path m.world)
      then (remove_dir_all fuel path m >>= λ m'.
          done (send_answer ResultCode.file_act_ok (codes "Folder successufully removed") m'))
      else done (send_answer ResultCode.file_not_found (codes "Couldn't remove folder") m)
