-- ===== src/LocalClient/Wire.antt =====
-- server/local_client.rs: what the server makes of the PORT of the client.
use minifto.Common.{ℕ, ◌<◌, ◌≡◌, refl, ap, ◌∙◌, returns, ok}
use minifto.Cmd.Command.{Command, as_ref}
use minifto.Cmd.Parse.{parse}
use minifto.Cmd.Parse.RoundTrip.{print, parse-print, argument}
use minifto.Cmd.Port.Laws.{address}
use minifto.Text.Decimal.{show}
use minifto.LocalClient.Transfer.{port_command}

port_command-print : (p : ℕ) → port_command p ≡ print (Command.port p)
unfolding port_command print as_ref argument address show
port_command-print p = refl

-- The server reads the port that the client listens on from the text of its PORT, if the port is
-- unprivileged and in 16 bits.
pub parse-port_command :
    (p : ℕ) → 1024 < p → p < 65536 → parse (port_command p) ≡ returns (ok (Command.port p))
parse-port_command p lo hi = ap parse (port_command-print p) ∙ parse-print (Command.port p) (lo, hi)
