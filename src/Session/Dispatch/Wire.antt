-- ===== src/Session/Dispatch/Wire.antt =====
-- handler/session.rs: `handle_command` over what the client of codec.rs sends.
use minifto.Common.{ℕ, ◌≡◌, refl, ap, true, Option, none, some, [], Bytes}
use minifto.Cmd.Command.{Command}
use minifto.Cmd.Parse.RoundTrip.{print, IsPrintable}
use minifto.Text.Split.{LacksCrlf}
use minifto.Codec.{decode_command, encode_bytes}
use minifto.Codec.RoundTrip.{decode_command-encode_bytes}
use minifto.Os.{Os}
use minifto.Session.State.{Machine, panicked}
use minifto.Session.Dispatch.{execute, handle_command, handle_msg, connected, frame_of, greet}

module _ {os : Os} (file_info : Bytes → os.World → Option Bytes) (fuel : ℕ) where
  handle_msg-command :
      (msg : Bytes) (c : Command) (m : Machine os)
      → frame_of (decode_command msg) ≡ some c
      → handle_msg file_info fuel (some msg) m ≡ execute file_info fuel c m
  unfolding handle_msg
  handle_msg-command msg c m e = rw (e) refl

  -- On an open connection, if a printable command without a line end in its text is printed and
  -- encoded by the client, then `handle_command` on these bytes greets and executes that command.
  pub handle_command-encode_bytes :
      (c : Command) (m : Machine os)
      → connected m.session.cmd_state ≡ true
      → IsPrintable c
      → LacksCrlf (print c)
      → handle_command file_info fuel (some (encode_bytes (print c) [])) m
        ≡ execute file_info fuel c (greet file_info fuel m)
  unfolding handle_command
  handle_command-encode_bytes c m is_open printable line = rw (is_open) (
      handle_msg-command (encode_bytes (print c) []) c (greet file_info fuel m)
        (ap frame_of (decode_command-encode_bytes c printable line)))

  -- On an open connection, `handle_command` panics for a message that does not decode to a
  -- command, after the greeting and before anything else.
  pub handle_command-panics :
      (msg : Bytes) (m : Machine os)
      → connected m.session.cmd_state ≡ true
      → frame_of (decode_command msg) ≡ none
      → handle_command file_info fuel (some msg) m ≡ panicked (greet file_info fuel m)
  unfolding handle_command handle_msg
  handle_command-panics msg m is_open e = rw (is_open, e) refl
