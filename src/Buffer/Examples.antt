-- ===== src/Buffer/Examples.antt =====
-- Runs of the buffer as in the source's tests, and the theorems at concrete buffers.
use mathlib.Core.Option
use minifto.Common.{
  ℕ, ◌≤◌, ◌<◌, ◌≡◌, refl, Option, some, [], ◌∷◌, ◌++◌, arith, Bytes, codes, length, replicate,
  Fallible, returns, ◌>>=◌,
}
use minifto.Text.Utf8.{is_utf8}
use minifto.Text.Split.{find_crlf, find}
use minifto.Buffer.{
  Buffer, ReadAnswer, got, approximate_pow, new, append, receive, read, get_line, get_crlf_line,
  read_buf, slice,
}
use minifto.Buffer.Queue.{IsQueue, approximate_pow_bounds}
use minifto.Buffer.Append.{append_lem}
use minifto.Buffer.Take.{new-IsQueue, get_crlf_line_lem}
use minifto.Buffer.Read.{read_short}

abbrev hello : Bytes
hello = codes "hello" ++ b'\r' ∷ b'\n' ∷ []

program : Unit {0}
unfolding new append read_buf get_crlf_line get_line receive find_crlf find is_utf8 slice
program = tt

-- The length of the first line behind `prefix`.
abbrev line_length : Bytes → Fallible (Option ℕ)
line_length prefix = append new prefix >>= λ b.
    append b hello >>= λ b'. get_crlf_line b' >>= λ r. returns (Option.map length r.1)

-- test_buffer_append: `hello` comes behind two hundred bytes, and both go as one line.
long_line : line_length (replicate 200 b'x') ≡ returns (some 207)
unfolding program
long_line = refl

-- test_append_overflow: the size doubles.
grown : (append new (replicate 1056 b'1') >>= λ b. returns (length b.bytes)) ≡ returns 2048
unfolding program
grown = refl

-- A small buffer that holds `ab\r\nc` behind one byte that has been read.
abbrev small : Buffer
small = record {
  bytes = codes "xab" ++ b'\r' ∷ b'\n' ∷ codes "cyz";
  read_index = 1;
  write_index = 6;
}

abbrev held : Bytes
held = codes "ab" ++ b'\r' ∷ b'\n' ∷ codes "c"

small-IsQueue : IsQueue small held
small-IsQueue = record {
  before = codes "x";
  after = codes "yz";
  whole = refl;
  at_read = refl;
  at_write = refl;
  small = omega arith;
}

append_lem_example : (b' : Buffer) × (append new hello ≡ returns b') × IsQueue b' hello
append_lem_example = append_lem new [] new-IsQueue hello (unfold new in omega arith)

get_crlf_line_lem_example :
    (b' : Buffer) × (get_crlf_line small ≡ returns (b', some (codes "ab" ++ b'\r' ∷ b'\n' ∷ [])))
    × IsQueue b' (codes "c")
get_crlf_line_lem_example =
    get_crlf_line_lem small (codes "ab") (codes "c") small-IsQueue (unfold find_crlf in refl)

approximate_pow_bounds_example :
    (562949953421311 < approximate_pow 562949953421311)
    × (approximate_pow 562949953421311 ≤ 2251799813685244)
approximate_pow_bounds_example = approximate_pow_bounds 562949953421311 (omega arith) (omega arith)

abbrev answers : ℕ → ℕ → ReadAnswer
answers i capacity = got hello

read_short_example :
    (b' : Buffer) × (read answers 1 0 small 0 ≡ returns (some (b', 7))) × IsQueue b' (held ++ hello)
read_short_example =
    read_short answers 0 0 small held small-IsQueue 0 hello refl (omega arith) (omega arith)
