-- ===== src/Session/Dispatch/Keeps.antt =====
-- Facts about who is logged in: the handlers but USER and PASS, and but the transfers.
pub mod Transfers
pub mod Logged
use minifto.Common.{
  ℕ, zero, suc, ◌≡◌, refl, ◌∙◌, Bool, true, false, not, Option, none, some, List, [], ◌∷◌, arith,
  Bytes, Bool-cases, inl, inr, ◌+◌, codes, ◌++◌,
}
use minifto.Config.{Config}
use minifto.Os.{Os, Entry}
use minifto.Session.State.{
  Session, Machine, Run, done, panicked, out_of_fuel, ◌>>=◌, to_absolute, expect, cases,
  send_answer, set_world, set_session,
}
use minifto.Cmd.Code.{ResultCode}
use mathlib.Core.Option
use minifto.Cmd.Command
use minifto.Common.Int.{pos, is_pos}
use minifto.Text.Utf8.{from_utf8}
use minifto.Session.Login
use minifto.Session.Files
use minifto.Session.Transfer
use minifto.Session.Retrieve
use minifto.Session.Store
use minifto.Session.Dispatch.Outcome.{Ends, Ends-bind, Ends-expect, Ends-if, Ends-cases}

module _ {os : Os} where
  -- Who is logged in, and by which configuration.
  abbrev pub who : Machine os → Option Bytes × Bool × Bool × Config
  who m = (m.session.name, m.session.is_admin, m.session.waiting_password, m.session.config)

  abbrev pub Same : Machine os → Machine os → Type 0
  Same m m' = who m' ≡ who m

  pub cdup-Same : (m : Machine os) → Ends (Same m) (Login.cdup m)
  unfolding Login.cdup send_answer
  cdup-Same m = ground arith

  pub pwd-Same : (m : Machine os) → Ends (Same m) (Login.pwd m)
  unfolding Login.pwd send_answer
  pwd-Same m = ground arith

  pub abort-Same : (m : Machine os) → Ends (Same m) (Login.abort m)
  unfolding Login.abort send_answer
  abort-Same m = ground arith

  pub quit-Same : (m : Machine os) → Ends (Same m) (Login.quit m)
  unfolding Login.quit send_answer
  quit-Same m = ground arith

  pub cwd-Same : (dir : Bytes) (m : Machine os) → Ends (Same m) (Login.cwd dir m)
  unfolding Login.cwd send_answer
  cwd-Same dir m = ground arith

  pub mkd-Same : (text : Bytes) (m : Machine os) → Ends (Same m) (Files.mkd text m)
  unfolding Files.mkd send_answer
  mkd-Same text m = ground arith

  pub delete-Same : (text : Bytes) (m : Machine os) → Ends (Same m) (Files.delete text m)
  unfolding Files.delete send_answer
  delete-Same text m = ground arith

  pub rnfr-Same : (text : Bytes) (m : Machine os) → Ends (Same m) (Files.rnfr text m)
  unfolding Files.rnfr send_answer
  rnfr-Same text m = ground arith

  pub rnto-Same : (text : Bytes) (m : Machine os) → Ends (Same m) (Files.rnto text m)
  unfolding Files.rnto send_answer
  rnto-Same text m = ground arith

  pub rest-Same : (text : Bytes) (m : Machine os) → Ends (Same m) (Files.rest text m)
  unfolding Files.rest send_answer
  rest-Same text m = ground arith

  pub size-Same : (text : Bytes) (m : Machine os) → Ends (Same m) (Files.size text m)
  unfolding Files.size send_answer
  size-Same text m = ground arith

  pub help-Same : (text : Bytes) (m : Machine os) → Ends (Same m) (Files.help text m)
  unfolding Files.help send_answer
  help-Same text m = ground arith

  pub site-Same : (l : List Bytes) (m : Machine os) → Ends (Same m) (Files.site l m)
  unfolding Files.site send_answer
  site-Same [] m = ground arith
  site-Same (a ∷ []) m = ground arith
  site-Same (a ∷ b ∷ []) m = ground arith
  site-Same (a ∷ b ∷ c ∷ []) m = ground arith
  site-Same _ m = ground arith

  pub port-Same : (n : ℕ) (m : Machine os) → Ends (Same m) (Transfer.port n m)
  unfolding Transfer.port send_answer
  port-Same n m = ground arith

  pub pasv-Same : (m : Machine os) → Ends (Same m) (Transfer.pasv m)
  unfolding Transfer.pasv send_answer
  pasv-Same m = ground arith

  pub trans_Same : (m m' : Machine os) (r : Run os) → Same m m' → Ends (Same m') r → Ends (Same m) r
  trans_Same m m' (done m2) h k = k ∙ h
  trans_Same m m' (panicked m2) h k = k ∙ h
  trans_Same m m' out_of_fuel h k = tt

  pub then_Same :
      (m : Machine os) (r : Run os) (k : Machine os → Run os)
      → Ends (Same m) r
      → ((m' : Machine os) → Ends (Same m') (k m'))
      → Ends (Same m) (r >>= k)
  then_Same m r k h n =
      Ends-bind (Same m) (Same m) r k h (λ m' e. e) λ m' e. trans_Same m m' (k m') e (n m')

  pub remove_entries-Same :
      (remove : Bytes → Machine os → Run os)
      → ((path : Bytes) (m : Machine os) → Ends (Same m) (remove path m))
      → (l : List Entry) (m : Machine os) → Ends (Same m) (Files.remove_entries remove l m)
  unfolding Files.remove_entries
  remove_entries-Same remove h [] m = refl
  remove_entries-Same remove h (e ∷ l) m =
      let rest = remove_entries-Same remove h l in
      let deeper =
        then_Same m (remove e.name m) (Files.remove_entries remove l) (h e.name m) rest in
      let after = rest (set_world m (os.unlink e.name m.world).1) in
      ground (arith, deeper, after, rest m)

  pub remove_dir_all-Same :
      (fuel : ℕ) (path : Bytes) (m : Machine os) → Ends (Same m) (Files.remove_dir_all fuel path m)
  unfolding Files.remove_dir_all
  remove_dir_all-Same zero path m = tt
  remove_dir_all-Same (suc fuel) path m = elim (Bool-cases (os.is_dir path m.world)) [
    | inl d ↦
        rw (d, Files.remove_dir_all)
          (Ends-expect (Same m) m (os.read_dir path m.world) _ refl λ entries.
            then_Same m _ _
              (remove_entries-Same (Files.remove_dir_all fuel) (remove_dir_all-Same fuel) entries m)
              λ m'. ground arith)
    | inr d ↦ rw (d, Files.remove_dir_all) refl
  ]

  pub rmd-Same : (fuel : ℕ) (path : Bytes) (m : Machine os) → Ends (Same m) (Files.rmd fuel path m)
  unfolding Files.rmd send_answer
  rmd-Same fuel path m =
      let removed =
        then_Same m (Files.remove_dir_all fuel path m)
          (λ m'.
            done (send_answer ResultCode.file_act_ok (codes "Folder successufully removed") m'))
          (remove_dir_all-Same fuel path m) λ m'. refl in
      ground (arith, removed)
