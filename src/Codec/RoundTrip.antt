-- ===== src/Codec/RoundTrip.antt =====
-- What one side encodes the other side decodes.
use minifto.Common.{
  ℕ, ◌<◌, ◌≡◌, ◌≢◌, refl, ◌∙◌, ap, true, Option, none, some, [], ◌∷◌, ◌++◌, arith, append_assoc,
  Bytes, take, drop, length, take-append, drop-append, if◌then◌else◌, sym, ok, returns, lt→ltb,
  ◌>>=◌,
}
use minifto.Common.Int.{ℤ, pos}
use minifto.Text.Utf8.{from_utf8, is_utf8, is_utf8-append}
use minifto.Text.Split.{
  find, find-append, find_whole, find_crlf, find_crlf-append, Lacks, LacksCrlf,
}
use minifto.Text.Decimal.{show, parse_signed, parse_signed-show, show-IsDigit}
use minifto.Cmd.Code.{ResultCode, number, number_bounds}
use minifto.Cmd.Port.Laws.{IsAscii-of_digits, Lacks-of_digits}
use minifto.Cmd.Answer
use minifto.Cmd.Answer.{Answer, i32_max, is_empty}
use minifto.Cmd.Command.{Command}
use minifto.Cmd.Parse.{parse}
use minifto.Cmd.Parse.RoundTrip.{print, IsPrintable, parse-print}
use minifto.Codec.{crlf, to_frame, encode_answer, decode_command, encode_bytes, decode_answer}
use minifto.Codec.Lines.{LacksCrlf-append, length-show-number}

decode_command_at :
    (buf : Bytes) (n : ℕ)
    → find_crlf buf ≡ some n
    → decode_command buf ≡ (parse (take n buf) >>= λ p. returns (to_frame p))
unfolding decode_command
decode_command_at buf n e = rw (e, decode_command)

-- For a line without a line end in it, the server decodes what the line parses to, whatever bytes
-- stand behind its line end.
pub decode_command-append :
    (line r : Bytes)
    → LacksCrlf line
    → decode_command (line ++ b'\r' ∷ b'\n' ∷ r) ≡ (parse line >>= λ p. returns (to_frame p))
decode_command-append line r h =
    decode_command_at _ _ (find_crlf-append line r h) ∙ rw (take-append line (b'\r' ∷ b'\n' ∷ r))

-- A command that is printable and has no line end in its text is decoded by the server from what
-- the client encodes of it.
pub decode_command-encode_bytes :
    (c : Command)
    → IsPrintable c
    → LacksCrlf (print c)
    → decode_command (encode_bytes (print c) []) ≡ returns (ok (some c))
unfolding encode_bytes
decode_command-encode_bytes c h k = rw (decode_command-append (print c) [] k, parse-print c h)

number-Lacks : (c : ResultCode) (b : ℕ) → b < b'0' → Lacks b (show (number c))
number-Lacks c b h = Lacks-of_digits b (show (number c)) h (show-IsDigit (number c))

pub number-LacksCrlf : (c : ResultCode) (m : Bytes) → LacksCrlf m → LacksCrlf (show (number c) ++ m)
number-LacksCrlf c m k = LacksCrlf-append (show (number c)) m (number-Lacks c b'\r' (omega arith)) k

whole-LacksCrlf : (c : ResultCode) → LacksCrlf (show (number c))
unfolding show number find_crlf
whole-LacksCrlf ResultCode.series = refl
whole-LacksCrlf _ = refl

whole-is_utf8 : (c : ResultCode) → is_utf8 (show (number c)) ≡ true
unfolding show number is_utf8
whole-is_utf8 ResultCode.series = refl
whole-is_utf8 _ = refl

module _ (from_i32 : ℤ → Option ResultCode) where
  from_none : (buf : Bytes) → find b' ' buf ≡ none → Answer.from from_i32 buf ≡ returns none
  unfolding Answer.from
  from_none buf e = rw (e, Answer.from)

  from_at :
      (buf : Bytes) (n v : ℕ) (c : ResultCode)
      → find b' ' buf ≡ some n
      → n < 7
      → parse_signed i32_max (take n buf) ≡ some (pos v)
      → from_i32 (pos v) ≡ some c
      → Answer.from from_i32 buf
        ≡ returns (some (record { code = c; message = drop 1 (drop n buf) }))
  unfolding Answer.from
  from_at buf n v c e h p q = rw (e, Answer.from, lt→ltb n 7 h, p, q)

  decode_answer_at :
      (buf : Bytes) (n : ℕ)
      → buf ≢ []
      → find_crlf buf ≡ some n
      → is_utf8 (take n buf) ≡ true
      → decode_answer from_i32 buf ≡ (Answer.from from_i32 (take n buf) >>= λ a. returns (ok a))
  unfolding decode_answer from_utf8
  decode_answer_at [] n ne e u = absurd (ne refl)
  decode_answer_at (c ∷ buf) n ne e u = rw (e, decode_answer, u)

module _ (from_i32 : ℤ → Option ResultCode)
    (from_number : (c : ResultCode) → from_i32 (pos (number c)) ≡ some c) where
  -- The client reads the answer's line.
  from-line :
      (c : ResultCode) (m : Bytes)
      → Answer.from from_i32 (show (number c) ++ b' ' ∷ m)
        ≡ returns (some (record { code = c; message = m }))
  from-line c m =
      from_at from_i32 _ (length (show (number c))) (number c) c
        (find-append b' ' (show (number c)) m (number-Lacks c b' ' (omega arith)))
        (omega (arith, length-show-number c))
        (rw (take-append (show (number c)) (b' ' ∷ m))
          (parse_signed-show i32_max (number c) (omega (arith, number_bounds c))))
        (from_number c)
      ∙ rw (drop-append (show (number c)) (b' ' ∷ m))

  decode_answer-line :
      (line : Bytes)
      → LacksCrlf line
      → is_utf8 line ≡ true
      → decode_answer from_i32 (line ++ crlf) ≡ (Answer.from from_i32 line >>= λ a. returns (ok a))
  decode_answer-line line k u =
      decode_answer_at from_i32 (line ++ crlf) (length line) (concat-ne line)
        (find_crlf-append line [] k) (rw (take-append line crlf) u)
      ∙ rw (take-append line crlf)
    where
      concat-ne : (s : Bytes) → s ++ crlf ≢ []
      concat-ne [] = cc
      concat-ne (x ∷ s) = cc

  number-is_utf8 :
      (c : ResultCode) (m : Bytes) → is_utf8 m ≡ true → is_utf8 (show (number c) ++ m) ≡ true
  number-is_utf8 c m u =
      is_utf8-append (show (number c)) m
        (IsAscii-of_digits (show (number c)) (show-IsDigit (number c)))
      ∙ u

  from-number : (c : ResultCode) → Answer.from from_i32 (show (number c)) ≡ returns none
  from-number c =
      from_none from_i32 _ (find_whole b' ' (show (number c)) (number-Lacks c b' ' (omega arith)))

  -- The client decodes an answer that the server encoded, if its message is UTF-8 and has no line
  -- end in it; an answer with an empty message is taken for no answer. `from_i32`, the derived
  -- conversion of numbers, is taken to find every code by its number.
  pub decode_answer-encode_answer :
      (c : ResultCode) (m : Bytes)
      → is_utf8 m ≡ true
      → LacksCrlf m
      → decode_answer from_i32 (encode_answer (Answer.new c m) [])
        ≡ returns (ok (if is_empty m then none else some (Answer.new c m)))
  unfolding encode_answer Answer.new
  decode_answer-encode_answer c [] u k =
      decode_answer-line (show (number c)) (whole-LacksCrlf c) (whole-is_utf8 c)
      ∙ rw (from-number c)
  decode_answer-encode_answer c (x ∷ m) u k =
      ap (decode_answer from_i32) (sym (append_assoc (show (number c)) (b' ' ∷ x ∷ m) crlf))
      ∙ decode_answer-line (show (number c) ++ b' ' ∷ x ∷ m)
          (number-LacksCrlf c (b' ' ∷ x ∷ m) (LacksCrlf-append (b' ' ∷ []) (x ∷ m) (omega arith) k))
          (number-is_utf8 c (b' ' ∷ x ∷ m) (is_utf8-append (b' ' ∷ []) (x ∷ m) (omega arith) ∙ u))
      ∙ rw (from-line c (x ∷ m))
