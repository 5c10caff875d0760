-- ===== src/Session/Dispatch/Keeps/Logged.antt =====
-- Facts about who is logged in: the first match of `handle_command`.
use minifto.Common.{ℕ, refl, true, false, Option, Bytes}
use minifto.Os.{Os}
use minifto.Session.State.{Machine, to_absolute}
use minifto.Cmd.Command
use minifto.Session.Dispatch.{logged}
use minifto.Session.Dispatch.Outcome.{Ends}
use minifto.Session.Dispatch.Keeps.{
  Same, cdup-Same, pwd-Same, abort-Same, cwd-Same, mkd-Same, delete-Same, rnfr-Same, rnto-Same,
  rest-Same, size-Same, help-Same, site-Same, port-Same, pasv-Same, rmd-Same,
}
use minifto.Session.Dispatch.Keeps.Transfers.{list-Same, retr-Same, stor-Same, type-Same}

module _ {os : Os} where
  -- No command of the first match changes who is logged in.
  pub logged-Same :
      (file_info : Bytes → os.World → Option Bytes) (fuel : ℕ) (c : Command.Command)
      (m : Machine os)
      → Ends (Same m) (logged file_info fuel c m)
  unfolding logged
  logged-Same info fuel (Command.Command.cwd dir) m = cwd-Same (to_absolute m.session dir) m
  logged-Same info fuel Command.Command.cd_up m = cdup-Same m
  logged-Same info fuel (Command.Command.port number) m = port-Same number m
  logged-Same info fuel Command.Command.pasv m = pasv-Same m
  logged-Same info fuel (Command.Command.type t) m = type-Same t m
  logged-Same info fuel (Command.Command.list path) m = list-Same info path true m
  logged-Same info fuel (Command.Command.n_lst path) m = list-Same info path false m
  logged-Same info fuel Command.Command.pwd m = pwd-Same m
  logged-Same info fuel (Command.Command.size path) m = size-Same (to_absolute m.session path) m
  logged-Same info fuel (Command.Command.help content) m = help-Same content m
  logged-Same info fuel (Command.Command.stor path) m =
      stor-Same fuel (to_absolute m.session path) m
  logged-Same info fuel (Command.Command.retr path) m =
      retr-Same fuel (to_absolute m.session path) m
  logged-Same info fuel (Command.Command.mkd path) m = mkd-Same (to_absolute m.session path) m
  logged-Same info fuel (Command.Command.rmd path) m = rmd-Same fuel (to_absolute m.session path) m
  logged-Same info fuel (Command.Command.delete path) m = delete-Same (to_absolute m.session path) m
  logged-Same info fuel (Command.Command.rnfr path) m = rnfr-Same (to_absolute m.session path) m
  logged-Same info fuel (Command.Command.rnto path) m = rnto-Same (to_absolute m.session path) m
  logged-Same info fuel (Command.Command.site contents) m = site-Same contents m
  logged-Same info fuel (Command.Command.rest content) m = rest-Same content m
  logged-Same info fuel Command.Command.abort m = abort-Same m
  logged-Same info fuel _ m = refl
