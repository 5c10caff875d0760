-- ===== src/Listing.antt =====
-- handler/session.rs: the text of a line of LIST, and `invaild_path`. What is read of the system,
-- and the time as a text, are arguments. A size below `2 ^ 53` is a floating point number, and so is
-- its quotient by a power of two: `format_size` is for these.
pub mod Letters
mod Examples
use minifto.Common.{
  ℕ, zero, suc, ◌+◌, ◌-◌, ◌*◌, ◌/◌, ◌%◌, ◌^◌, Bool, true, false, ◌&&◌, ◌||◌, Option, none, some,
  List, [], ◌∷◌, ◌++◌, ltb, leb, ◌==◌, ◌=?◌, if◌then◌else◌, Bytes, codes, length, replicate,
  Fallible, returns, panics, ◌>>=◌, unwrap,
}
use minifto.Text.Decimal.{show}
use minifto.Text.Split.{split}

-- `mode & (1 << i) != 0`
abbrev pub bit : (i mode : ℕ) → Bool
bit i mode = mode / 2 ^ i % 2 == 1

-- The macros of utils/macro_utils.rs: `mode & flag == flag`, by the bits of the flag.
abbrev pub is_reg : ℕ → Bool
is_reg mode = bit 15 mode

abbrev pub is_link : ℕ → Bool
is_link mode = bit 15 mode && bit 13 mode

abbrev pub is_dir : ℕ → Bool
is_dir mode = bit 14 mode

abbrev pub is_sock : ℕ → Bool
is_sock mode = bit 15 mode && bit 14 mode

abbrev pub is_char : ℕ → Bool
is_char mode = bit 13 mode

abbrev pub is_blk : ℕ → Bool
is_blk mode = bit 14 mode && bit 13 mode

abbrev pub is_pipe : ℕ → Bool
is_pipe mode = bit 12 mode

-- `file_typ`
unfoldable pub file_typ : ℕ → ℕ
file_typ mode =
    if is_reg mode
    then b'-'
    else (if is_link mode
        then b'l'
        else (if is_dir mode
            then b'd'
            else (if is_sock mode
                then b's'
                else (if is_char mode
                    then b'c'
                    else (if is_blk mode then b'b' else (if is_pipe mode then b'p' else b'?'))))))

-- `permissions`: the letters from `i` on, each of them struck out where its bit is not set.
strike : (i mode : ℕ) → Bytes → Bytes
strike i mode [] = []
strike i mode (c ∷ cs) = (if bit i mode then c else b'-') ∷ strike (suc i) mode cs

unfoldable pub permissions : ℕ → Bytes
unfolding strike
permissions mode = strike 0 mode (codes "wrxwrxwrx")

-- `{:width}` of a number
pad : ℕ → Bytes → Bytes
pad width s = replicate (width - length s) b' ' ++ s

-- `{:.2}` of `n / unit`: a half goes to the even digit.
hundredths : (n unit : ℕ) → ℕ
hundredths n unit =
    let q : ℕ = n * 100 / unit in
    let r : ℕ = n * 100 % unit in
    if ltb unit (2 * r) || ((2 * r == unit) && (q % 2 == 1)) then q + 1 else q

fixed : ℕ → Bytes
fixed h = show (h / 100) ++ b'.' ∷ (b'0' + h / 10 % 10) ∷ (b'0' + h % 10) ∷ []

abbrev pub kilogyte : ℕ
kilogyte = 1024

abbrev pub mega_byte : ℕ
mega_byte = kilogyte * 1024

abbrev pub giga_byte : ℕ
giga_byte = mega_byte * 1024

-- `format_size`
unfoldable pub format_size : ℕ → Bytes
unfolding pad hundredths fixed
format_size st_size =
    if ltb giga_byte st_size
    then pad 6 (fixed (hundredths st_size giga_byte)) ++ codes "G"
    else (if ltb mega_byte st_size
        then pad 6 (fixed (hundredths st_size mega_byte)) ++ codes "M"
        else (if leb kilogyte st_size
            then pad 6 (fixed (hundredths st_size kilogyte)) ++ codes "K"
            else pad 7 (show st_size)))

-- The fields of `FileStat` that `add_file_info` prints; the time as a text, and the names of the
-- user and the group, if there are such.
pub record FileStat : Type 0 where
  pub st_mode : ℕ
  pub st_nlink : ℕ
  pub st_size : ℕ
  pub time : Bytes
  pub user : Option Bytes
  pub group : Option Bytes

-- `path.split('/').last().unwrap()`
last_piece : List Bytes → Bytes → Bytes
last_piece [] p = p
last_piece (q ∷ pieces) p = last_piece pieces q

unfoldable pub file_str : (path : Bytes) → FileStat → (user group : Bytes) → Bytes
unfolding file_typ permissions pad last_piece split format_size
file_str path stat user group =
    (file_typ stat.st_mode ∷ permissions stat.st_mode)
    ++ b' ' ∷ pad 3 (show stat.st_nlink)
    ++ b' ' ∷ user
    ++ b' ' ∷ group
    ++ b' ' ∷ format_size stat.st_size
    ++ codes "  "
    ++ stat.time
    ++ b' ' ∷ last_piece (split b'/' path) []
    ++ (if is_dir stat.st_mode then codes "/" else [])
    ++ b'\r' ∷ b'\n' ∷ []

-- `add_file_info`, which adds to `out`.
unfoldable pub add_file_info :
    (lstat : Bytes → Option FileStat) → (path out : Bytes) → Fallible Bytes
unfolding file_str
add_file_info lstat [] out = returns out
add_file_info lstat (c ∷ path) out = do
  stat ← unwrap (lstat (c ∷ path))
  user ← unwrap stat.user
  group ← unwrap stat.group
  returns (out ++ file_str (c ∷ path) stat user group)

-- The loop of `invaild_path` over the components, the pieces between the separators.
has_parent : List Bytes → Bool
has_parent [] = true
has_parent (piece ∷ pieces) = if piece =? codes ".." then true else has_parent pieces

-- `invaild_path`
unfoldable pub invaild_path : Bytes → Bool
unfolding has_parent split ◌=?◌
invaild_path path = has_parent (split b'/' path)
