-- ===== src/Connection/Examples.antt =====
-- net/connection.rs: the theorems at a connection that holds the beginning of a line, or two lines.
use minifto.Common.{
  refl, some, none, [], ◌∷◌, ◌++◌, Bytes, codes, length, arith, inr, ◌≤◌, sym, append-nil,
}
use minifto.Buffer.{got}
use minifto.Buffer.Queue.{IsQueue}
use minifto.Connection.{Connection}
use minifto.Connection.Messages.{Reads, read_msg-line, read_msg-idle}
use minifto.Session.State.{ready}
use minifto.Text.Split.{find_crlf}

-- A connection whose vector is full with these bytes.
abbrev holding : Bytes → Connection
holding q = record {
  sock = 5;
  state = ready;
  input_buf = record { bytes = q; read_index = 0; write_index = length q };
  output_buf = record { bytes = []; read_index = 0; write_index = 0 };
  local_addr = [];
  peer_addr = [];
  revents = 1;
}

abbrev beginning : Bytes
beginning = codes "US"

abbrev arrived : Bytes
arrived = codes "ER a" ++ b'\r' ∷ b'\n' ∷ codes "PWD"

abbrev two_lines : Bytes
two_lines = codes "NOOP" ++ b'\r' ∷ b'\n' ∷ codes "QUIT" ++ b'\r' ∷ b'\n' ∷ []

holding-IsQueue : (q : Bytes) → length q ≤ 100 → IsQueue (holding q).input_buf q
holding-IsQueue q h = record {
  before = [];
  after = [];
  whole = sym (append-nil q);
  at_read = refl;
  at_write = omega arith;
  small = omega (arith, h);
}

read_msg-line_example :
    Reads
      (λ i n. got arrived)
      0
      (holding beginning)
      beginning
      (holding-IsQueue beginning (omega arith))
      (some (codes "USER a" ++ b'\r' ∷ b'\n' ∷ []))
      (codes "PWD")
read_msg-line_example =
    read_msg-line (λ i n. got arrived) 0 (holding beginning) beginning
      (holding-IsQueue beginning (omega arith)) b'E' (codes "R a" ++ b'\r' ∷ b'\n' ∷ codes "PWD")
      (codes "USER a") (codes "PWD")
      (record { answer = refl; short = omega arith; small = omega arith }) refl
      (unfold find_crlf in refl)

read_msg-idle_example :
    Reads
      (λ i n. got [])
      0
      (holding two_lines)
      two_lines
      (holding-IsQueue two_lines (omega arith))
      none
      two_lines
read_msg-idle_example =
    read_msg-idle (λ i n. got []) 0 (holding two_lines) two_lines
      (holding-IsQueue two_lines (omega arith)) (inr refl)
