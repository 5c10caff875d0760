-- ===== src/Session/Dispatch/Access.antt =====
-- handler/session.rs: what the handlers do for a session that is not the administrator's.
use minifto.Common.{ℕ, ◌≡◌, Bool, false, Option, none, some, Bytes, arith}
use minifto.Os.{Os}
use minifto.Session.State.{Machine, Run, done, panicked, out_of_fuel, send_answer, set_session}
use minifto.Session.Files
use minifto.Session.Dispatch.Outcome.{Ends}

module _ {os : Os} where
  -- The world and the bytes sent when a run ends.
  abbrev pub effects : Run os → Option (os.World × Bytes)
  effects (done m) = some (m.world, m.sent)
  effects (panicked m) = some (m.world, m.sent)
  effects out_of_fuel = none

  abbrev pub Unchanged : Machine os → Machine os → Type 0
  Unchanged m m' = m'.world ≡ m.world

  -- In a session that is not the administrator's, the handlers of MKD, RMD and RNFR leave the file
  -- system as it is, whether they return or panic.
  pub refused_without_admin :
      (fuel : ℕ) (path : Bytes) (m : Machine os)
      → m.session.is_admin ≡ false
      → Ends (Unchanged m) (Files.mkd path m)
        × Ends (Unchanged m) (Files.rmd fuel path m)
        × Ends (Unchanged m) (Files.rnfr path m)
  unfolding Files.mkd Files.rmd Files.rnfr send_answer
  refused_without_admin fuel path m h = (ground (arith, h), ground (arith, h), ground (arith, h))

  -- The handler of DELE ends in the same world, and has sent the same bytes, whether or not the
  -- session is marked as the administrator's.
  pub delete_ignores_admin :
      (path : Bytes) (b : Bool) (m : Machine os)
      → effects (Files.delete path (set_session m (record m.session { is_admin = b })))
        ≡ effects (Files.delete path m)
  unfolding Files.delete send_answer
  delete_ignores_admin path b m = ground arith
