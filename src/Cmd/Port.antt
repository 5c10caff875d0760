-- ===== src/Cmd/Port.antt =====
-- handler/cmd.rs: `extract_port`, the argument of PORT.
pub mod Laws
use minifto.Common.{
  ℕ, ◌+◌, ◌*◌, List, [], ◌∷◌, Option, none, some, leb, ◌==◌, not, if◌then◌else◌, Bytes, codes,
  length, get_or, Result, ok, err,
}
use minifto.Text.Utf8.{from_utf8}
use minifto.Text.Split.{split}
use minifto.Text.Decimal.{parse_unsigned}
use minifto.Cmd.Error.{Error, msg}
use minifto.Cmd.Command.{Command, port}
use mathlib.Core.Option

-- `str::from_utf8(bytes).ok().and_then(|s| u8::from_str(s).ok())`
unfoldable pub field : Bytes → Option ℕ
unfolding Option.bind
field bytes = Option.bind (from_utf8 bytes) (parse_unsigned 255)

-- `filter_map`: a piece that is no number is passed over.
unfoldable pub fields : List Bytes → List ℕ
fields [] = []
fields (p ∷ pieces) = let rest = fields pieces in elim (field p) [ none ↦ rest | some n ↦ n ∷ rest ]

-- `(addr[4] as u16) << 8 | (addr[5] as u16)`: the two bytes do not overlap.
unfoldable pub extract_port : Bytes → Result Error Command
unfolding fields
extract_port bytes =
    let addr : List ℕ = fields (split b',' bytes) in
    let number : ℕ = get_or addr 4 0 * 256 + get_or addr 5 0 in
    if not (length addr == 6)
    then err (msg (codes "Invalid address/port"))
    else if leb number 1024
    then err (msg (codes "Port can't be less than 1025"))
    else ok (port number)
