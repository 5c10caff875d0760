-- ===== src/Codec.antt =====
-- handler/codec.rs: the codecs of the server (`FtpCodec`) and of the client (`BytesCodec`). An
-- `encode` is given the buffer that it extends; the `write!` into a vector cannot fail.
pub mod Lines
pub mod RoundTrip
pub mod Examples
use minifto.Common.{
  Option, none, some, List, [], ◌∷◌, ◌++◌, if◌then◌else◌, Bytes, take, Result, ok, err, Fallible,
  returns, panics, ◌>>=◌, unwrap,
}
use minifto.Common.Int.{ℤ}
use minifto.Text.Utf8.{from_utf8}
use minifto.Text.Split.{find_crlf}
use minifto.Text.Decimal.{show}
use minifto.Cmd.Error.{Error, IoError, remaining, to_io_error}
use minifto.Cmd.Code.{ResultCode, number}
use minifto.Cmd.Answer
use minifto.Cmd.Answer.{Answer, is_empty}
use minifto.Cmd.Command.{Command}
use minifto.Cmd.Parse.{parse}

abbrev pub crlf : Bytes
crlf = b'\r' ∷ b'\n' ∷ []

-- What `decode` of a `Decoder` for `A` gives.
abbrev pub Decoded : Type 0 → Type 0
Decoded A = Fallible (Result IoError (Option A))

-- `Decoder::decode_eof`, the provided method: an incomplete frame is an error.
unfoldable pub decode_eof : {A : Type 0} → (Bytes → Decoded A) → Bytes → Decoded A
decode_eof decode buf = do
  result ← decode buf
  elim result [
    | err e ↦ returns (err e)
    | ok frame ↦ elim frame [
      | some item ↦ returns (ok (some item))
      | none ↦ if is_empty buf then returns (ok none) else returns (err remaining)
    ]
  ]

-- `FtpCodec::encode`
unfoldable pub encode_answer : Answer → Bytes → Bytes
encode_answer answer buf =
    if is_empty answer.message
    then buf ++ (show (number answer.code) ++ crlf)
    else buf ++ (show (number answer.code) ++ b' ' ∷ (answer.message ++ crlf))

-- `map(|cmd| Some(cmd)).map_err(Error::to_io_error)`
abbrev pub to_frame : Result Error Command → Result IoError (Option Command)
to_frame (ok c) = ok (some c)
to_frame (err e) = err (to_io_error e)

-- `FtpCodec::decode`
unfoldable pub decode_command : Bytes → Decoded Command
decode_command buf = elim (find_crlf buf) [
  | none ↦ returns (ok none)
  | some index ↦ parse (take index buf) >>= λ r. returns (to_frame r)
]

-- `BytesCodec::encode`
unfoldable pub encode_bytes : Bytes → Bytes → Bytes
encode_bytes item buf = (buf ++ item) ++ crlf

-- `BytesCodec::decode`, for the derived `ResultCode::from_i32`.
unfoldable pub decode_answer : (ℤ → Option ResultCode) → Bytes → Decoded Answer
decode_answer from_i32 buf = if is_empty buf then returns (ok none) else elim (find_crlf buf) [
  | none ↦ returns (ok none)
  | some index ↦ unwrap (from_utf8 (take index buf)) >>= λ line.
      Answer.from from_i32 line >>= λ answer. returns (ok answer)
]
