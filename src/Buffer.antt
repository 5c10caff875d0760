-- ===== src/Buffer.antt =====
-- net/buffer.rs: the byte buffer of a connection, with its read and write index into one vector.
-- Arithmetic on `usize` wraps, as it does in a release build. A copy out of bounds, which is
-- undefined behaviour in the source, and a slice out of bounds panic here.
pub mod Queue
mod Room
pub mod Append
pub mod Receive
pub mod Take
pub mod Read
mod Examples
use minifto.Common.{
  ℕ, zero, suc, ◌+◌, ◌-◌, ◌*◌, ◌/◌, ◌%◌, ◌^◌, Bool, ◌&&◌, ◌||◌, not, Option, none, some, [], ◌∷◌,
  ◌++◌, ltb, leb, ◌==◌, if◌then◌else◌, Bytes, length, take, drop, replicate, Fallible, returns,
  panics, ◌>>=◌,
}
use minifto.Text.Utf8.{is_utf8}
use minifto.Text.Split
use minifto.Text.Split.{find}

abbrev pub default_init_size : ℕ
default_init_size = 1024

-- The size of `extrabuf`.
abbrev pub extra_size : ℕ
extra_size = 1024 * 64

abbrev pub usize : ℕ
usize = 2 ^ 64

abbrev pub isize_max : ℕ
isize_max = 2 ^ 63 - 1

abbrev pub usize_add : ℕ → ℕ → ℕ
usize_add a b = (a + b) % usize

abbrev pub usize_sub : ℕ → ℕ → ℕ
usize_sub a b = (a + usize - b) % usize

pub record Buffer : Type 0 where
  pub bytes : Bytes
  pub read_index : ℕ
  pub write_index : ℕ

-- `Vec::resize(n, 0)`; a vector of more than `isize::MAX` bytes panics.
unfoldable pub resize : Bytes → ℕ → Fallible Bytes
resize v n =
    if ltb isize_max n
    then panics
    else if leb n (length v)
    then returns (take n v)
    else returns (v ++ replicate (n - length v) 0)

-- `ptr::copy` of `src` to `v.as_mut_ptr().offset(i)`
unfoldable pub copy_to : Bytes → ℕ → Bytes → Fallible Bytes
copy_to v i src =
    if leb (i + length src) (length v)
    then returns (take i v ++ (src ++ drop (length src) (drop i v)))
    else panics

-- `&v[from..to]`
unfoldable pub slice : Bytes → ℕ → ℕ → Fallible Bytes
slice v from to =
    if ltb to from || ltb (length v) to then panics else returns (take (to - from) (drop from v))

-- Halvings until 0: the number of binary digits.
bit_length : (fuel n : ℕ) → ℕ
bit_length zero n = 0
bit_length (suc fuel) n = let rest = bit_length fuel (n / 2) in if n == 0 then 0 else suc rest

-- Whether `log2(n)`, of `digits` binary digits, is rounded to `digits` itself. `n` is rounded to a
-- `f64` with 53 digits, and its logarithm to the nearest `f64`: below a power of two `2 ^ k` with `k`
-- from 33 to 64, these stand `2 ^ -47` apart. The factors are half of that, `ln 2 * 2 ^ -48`, in
-- `2 ^ -64` and, with the rounding of `n`, in `2 ^ -54`; the first such `n` is `2 ^ 49 - 1`.
rounds_up : (digits n : ℕ) → Bool
rounds_up digits n =
    leb 49 digits
    && (if leb digits 53
        then leb (2 ^ digits - n) (45426 / 2 ^ (64 - digits))
        else leb (2 ^ digits - n) (45 * 2 ^ (digits - 54)))

-- The whole part of `log2(n) + 1`: the number of binary digits, or one more. Sixty-four digits are
-- enough for any `u64`.
base : ℕ → ℕ
unfolding bit_length rounds_up
base n = let digits : ℕ = bit_length 64 n in if rounds_up digits n then digits + 1 else digits

-- `approximate_pow`: `2u64.pow` wraps to 0 for a base of 64 and more.
unfoldable pub approximate_pow : ℕ → ℕ
unfolding base
approximate_pow n = 2 ^ base n % usize

unfoldable pub new : Buffer
new = record { bytes = replicate default_init_size 0; read_index = 0; write_index = 0 }

unfoldable pub reset : Buffer → Fallible Buffer
unfolding resize
reset b = resize b.bytes default_init_size >>= λ v.
    returns (record { bytes = v; read_index = 0; write_index = 0 })

abbrev pub writable_bytes : Buffer → ℕ
writable_bytes b = usize_sub (length b.bytes) b.write_index

abbrev pub readable_bytes : Buffer → ℕ
readable_bytes b = usize_sub b.write_index b.read_index

abbrev pub remaining : Buffer → ℕ
remaining b = usize_sub (length b.bytes) (readable_bytes b)

-- `bytes`: the readable region.
abbrev pub region : Buffer → Fallible Bytes
region b = slice b.bytes b.read_index b.write_index

unfoldable pub left_shift : Buffer → Fallible Buffer
unfolding copy_to slice
left_shift b =
    let new_size : ℕ = usize_sub b.write_index b.read_index in
    do
      src ← slice b.bytes b.read_index (b.read_index + new_size)
      v ← copy_to b.bytes 0 src
      returns (record { bytes = v; read_index = 0; write_index = new_size })

-- `adjust_space`, with its `assert_eq!`.
unfoldable pub adjust_space : Buffer → ℕ → Fallible Buffer
unfolding left_shift resize approximate_pow
adjust_space b len =
    if ltb (remaining b) len
    then (do
      v ← resize b.bytes (approximate_pow (usize_add b.write_index len))
      returns (record b { bytes = v }))
    else (do
      let readable : ℕ = readable_bytes b
      shifted ← left_shift b
      if readable == readable_bytes shifted then returns shifted else panics)

unfoldable pub append : Buffer → Bytes → Fallible Buffer
unfolding adjust_space copy_to
append b buf = do
  roomy ← (if ltb (writable_bytes b) (length buf) then adjust_space b (length buf) else returns b)
  v ← copy_to roomy.bytes roomy.write_index buf
  returns (record roomy { bytes = v; write_index = usize_add roomy.write_index (length buf) })

-- The arm `Ok(n)` of `read`, where `readv` has put `s` into the free region and `extrabuf`.
unfoldable pub receive : Buffer → Bytes → Fallible Buffer
unfolding append
receive b s =
    let writable : ℕ = writable_bytes b in
    copy_to b.bytes b.write_index (take writable s) >>= λ v.
    if leb (length s) writable
    then returns (record b { bytes = v; write_index = usize_add b.write_index (length s) })
    else append (record b { bytes = v; write_index = length v }) (drop writable s)

-- What a call of `readv` answers: an error, or the bytes that it read.
pub data ReadAnswer : Type 0 where
  failed : ReadAnswer
  got : Bytes → ReadAnswer

-- `read`: `readv i capacity` is the answer of the i-th call, given slices of `capacity` bytes. The
-- loop goes on after an answer that filled them; `none` means that the fuel ran out first.
unfoldable pub read :
    (readv : ℕ → ℕ → ReadAnswer)
    → (fuel i : ℕ) → Buffer
    → (len : ℕ) → Fallible (Option (Buffer × ℕ))
unfolding receive
read readv zero i b len = returns none
read readv (suc fuel) i b len =
    let capacity : ℕ = writable_bytes b + extra_size in
    elim (readv i capacity) [
      | failed ↦ returns (some (b, len))
      | got s ↦
          let stop = returns (some (b, len)) in
          let more = receive b s >>= λ b'.
          let again = read readv fuel (suc i) b' (len + length s) in
          if length s == capacity then again else returns (some (b', len + length s)) in
          if length s == 0 then stop else more
    ]

-- `get_line`, up to a `\n`: a line that is not UTF-8 panics, after the index has moved.
unfoldable pub get_line : Buffer → Fallible (Buffer × Option Bytes)
get_line b = do
  readable ← region b
  elim (find b'\n' readable) [
    | none ↦ returns (b, none)
    | some n ↦ slice b.bytes b.read_index (b.read_index + n + 1) >>= λ buf.
        if is_utf8 buf
        then returns (record b { read_index = usize_add b.read_index (length buf) }, some buf)
        else panics
  ]

-- `get_crlf_line`: the line with its `\r\n`.
unfoldable pub get_crlf_line : Buffer → Fallible (Buffer × Option Bytes)
get_crlf_line b = do
  readable ← region b
  elim (Split.find_crlf readable) [
    | none ↦ returns (b, none)
    | some n ↦ slice b.bytes b.read_index (b.read_index + n + 2) >>= λ buf.
        returns (record b { read_index = usize_add b.read_index (length buf) }, some buf)
  ]

-- `read_buf`: all that is readable.
unfoldable pub read_buf : Buffer → Fallible (Buffer × Bytes)
unfolding slice
read_buf b = do
  buf ← region b
  returns (record b { read_index = usize_add b.read_index (length buf) }, buf)
