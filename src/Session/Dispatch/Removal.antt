-- ===== src/Session/Dispatch/Removal.antt =====
-- handler/session.rs: RMD and `remove_dir_all`, with `unlink` as it is documented.
use minifto.Common.{
  ℕ, zero, suc, ◌≡◌, ◌≢◌, if◌then◌else◌, subst, refl, sym, ◌∙◌, true, false, List, [], ◌∷◌, Bytes,
  codes, Bool, Bool-cases, inl, inr, ◌||◌, ◌=?◌,
}
use mathlib.Core.Option
use minifto.Text.Utf8.{from_utf8}
use minifto.Cmd.Code.{ResultCode}
use minifto.Os.{Os, Entry}
use minifto.Session.State.{Machine, Run, done, panicked, ◌>>=◌, expect, send_answer, set_world}
use minifto.Session.Files
use minifto.Session.Dispatch.Outcome.{Returns, Returns-bind, Returns-if, Returns-expect}

-- `IsReal path w` is for a directory that `path` leads to through no symbolic link. `unlink` fails on
-- it, and it is one still after the removal of any name: `unlink` removes files and links, and no
-- directory.
module _ {os : Os} (IsReal : Bytes → os.World → Type 0)
    (unlink_fails : (path : Bytes) (w : os.World) → IsReal path w → (os.unlink path w).0 ≡ false)
    (unlink_keeps : (path name : Bytes) (w : os.World)
      → IsReal path w
      → IsReal path (os.unlink name w).1) where
  IsKept : Bytes → Machine os → Type 0
  IsKept path m = IsReal path m.world

  remove_entries-IsKept :
      (path : Bytes) (remove : Bytes → Machine os → Run os)
      → ((name : Bytes) (m : Machine os) → IsKept path m → Returns (IsKept path) (remove name m))
      → (l : List Entry) (m : Machine os) → IsKept path m
      → Returns (IsKept path) (Files.remove_entries remove l m)
  unfolding Files.remove_entries IsKept
  remove_entries-IsKept path remove h [] m d = d
  remove_entries-IsKept path remove h (e ∷ l) m d =
      let rest = remove_entries-IsKept path remove h l in
      let P = IsKept path in
      let w : Bool × os.World = os.unlink e.name m.world in
      let after = rest (set_world m w.1) (unlink_keeps path e.name m.world d) in
      Returns-if P ((e.name =? codes ".") || (e.name =? codes "..")) _ _ (rest m d) (
        Returns-if P e.directory _ _
          (Returns-bind P P (remove e.name m) (Files.remove_entries remove l) (h e.name m d) rest)
          (Returns-if P w.0 _ (panicked (set_world m w.1)) after tt))

  -- The end of `remove_dir_all`, behind the test of its path.
  remove_rest-IsKept :
      (path : Bytes) (remove : Bytes → Machine os → Run os) (name : Bytes)
      → ((name : Bytes) (m : Machine os) → IsKept path m → Returns (IsKept path) (remove name m))
      → (m : Machine os) → IsKept path m
      → Returns (IsKept path) (
          expect m (os.read_dir name m.world) λ entries.
            Files.remove_entries remove entries m >>= λ m'.
            if (os.unlink name m'.world).0
            then done (set_world m' (os.unlink name m'.world).1)
            else panicked (set_world m' (os.unlink name m'.world).1))
  unfolding IsKept
  remove_rest-IsKept path remove name h m d =
      let P = IsKept path in
      Returns-expect P m (os.read_dir name m.world) _ λ entries.
        Returns-bind P P (Files.remove_entries remove entries m) _
          (remove_entries-IsKept path remove h entries m d)
          λ m' d'.
            Returns-if P (os.unlink name m'.world).0
              (done (set_world m' (os.unlink name m'.world).1))
              (panicked (set_world m' (os.unlink name m'.world).1))
              (unlink_keeps path name m'.world d') tt

  remove_dir_all-IsKept :
      (fuel : ℕ) (path name : Bytes) (m : Machine os)
      → IsKept path m
      → Returns (IsKept path) (Files.remove_dir_all fuel name m)
  unfolding Files.remove_dir_all IsKept
  remove_dir_all-IsKept zero path name m d = tt
  remove_dir_all-IsKept (suc fuel) path name m d = elim (Bool-cases (os.is_dir name m.world)) [
    | inl e ↦
        rw (e, Files.remove_dir_all)
          (remove_rest-IsKept path (Files.remove_dir_all fuel) name
            (remove_dir_all-IsKept fuel path) m d)
    | inr e ↦ rw (e, Files.remove_dir_all) d
  ]

  Never : Machine os → Type 0
  Never m = ⊥

  -- The last `unlink` fails on the directory itself.
  stuck :
      (remove : Bytes → Machine os → Run os) (path : Bytes)
      → ((name : Bytes) (m : Machine os) → IsKept path m → Returns (IsKept path) (remove name m))
      → (m : Machine os) → IsKept path m
      → Returns Never (
          expect m (os.read_dir path m.world) λ entries.
            Files.remove_entries remove entries m >>= λ m'.
            if (os.unlink path m'.world).0
            then done (set_world m' (os.unlink path m'.world).1)
            else panicked (set_world m' (os.unlink path m'.world).1))
  unfolding IsKept
  stuck remove path h m d = Returns-expect Never m (os.read_dir path m.world) _ λ entries.
      Returns-bind (IsKept path) Never (Files.remove_entries remove entries m) _
        (remove_entries-IsKept path remove h entries m d)
        λ m' d'. let failed = unlink_fails path m'.world d' in rw (failed) tt

  remove_dir_all-Never :
      (fuel : ℕ) (path : Bytes) (m : Machine os)
      → os.is_dir path m.world ≡ true
      → IsKept path m
      → Returns Never (Files.remove_dir_all fuel path m)
  unfolding Files.remove_dir_all IsKept
  remove_dir_all-Never zero path m e d = tt
  remove_dir_all-Never (suc fuel) path m e d =
      rw (e, Files.remove_dir_all)
        (stuck (Files.remove_dir_all fuel) path (remove_dir_all-IsKept fuel path) m d)

  -- Let `unlink` fail on a directory that a path leads to through no symbolic link, and let it be
  -- one still after the removal of any name. Then the handler of RMD never returns for the path of
  -- such a directory, in the session of the administrator.
  pub rmd_never_done :
      (fuel : ℕ) (path : Bytes) (m m' : Machine os)
      → m.session.is_admin ≡ true
      → os.access (Option.get_or (from_utf8 path) []) m.world ≡ true
      → os.is_dir path m.world ≡ true
      → IsReal path m.world
      → Files.rmd fuel path m ≢ done m'
  unfolding Files.rmd IsKept Never
  rmd_never_done fuel path m m' admin found d real e =
      let removal : Run os = Files.remove_dir_all fuel path m >>= λ m'.
      done (send_answer ResultCode.file_act_ok (codes "Folder successufully removed") m') in
      let taken : Files.rmd fuel path m ≡ removal = rw (admin, found, d) refl in
      let never : Returns Never removal =
        Returns-bind Never Never (Files.remove_dir_all fuel path m) _
          (remove_dir_all-Never fuel path m d real) λ m' n. n in
      subst (Returns Never) (sym taken ∙ e) never
