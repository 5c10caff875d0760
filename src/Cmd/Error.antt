-- ===== src/Cmd/Error.antt =====
-- handler/error.rs: `Error`, and its reduction to the `io::Error` that the codec returns.
use minifto.Common.{Bytes}

-- The error values of the standard library that an `Error` may carry.
pub data IoError : Type 0 where
  other : IoError
  remaining : IoError

pub data Error : Type 0 where
  from_utf8 : Error
  io : IoError → Error
  msg : Bytes → Error
  utf8 : Error

unfoldable pub to_io_error : Error → IoError
to_io_error (io e) = e
to_io_error from_utf8 = other
to_io_error (msg m) = other
to_io_error utf8 = other

-- `Display`; the texts of the errors of the standard library are arguments.
unfoldable pub display :
    (from_utf8_text utf8_text : Bytes) → (io_text : IoError → Bytes) → Error → Bytes
display from_utf8_text utf8_text io_text from_utf8 = from_utf8_text
display from_utf8_text utf8_text io_text (io e) = io_text e
display from_utf8_text utf8_text io_text utf8 = utf8_text
display from_utf8_text utf8_text io_text (msg m) = m

-- `From<&str>`
unfoldable pub from_message : Bytes → Error
from_message message = msg message
