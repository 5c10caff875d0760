-- ===== src/LocalClient/Talk.antt =====
-- server/local_client.rs and handler/session.rs: the client at a session of the server. What either
-- side sends comes, in order; the client takes one line of it at a time, as `read_msg` does.
pub mod Login
use minifto.Common.{
  ℕ, ◌+◌, ◌≡◌, refl, ap, subst, ◌∙◌, true, false, Option, none, some, [], ◌∷◌, ◌++◌, Bytes, arith,
  take, drop, length, append_assoc, length-append, take-append, drop-append, returns, ok,
}
use minifto.Common.Int.{ℤ, pos}
use minifto.Text.Split.{find_crlf, find_crlf-append, LacksCrlf}
use minifto.Text.Decimal.{show}
use minifto.Text.Utf8.{is_utf8}
use minifto.Cmd.Code.{ResultCode, number}
use minifto.Cmd.Answer
use minifto.Cmd.Answer.{is_empty}
use minifto.Codec.{crlf, encode_answer, encode_bytes, decode_answer}
use minifto.Codec.Lines.{LacksCrlf-append}
use minifto.Codec.RoundTrip.{decode_answer-encode_answer, number-LacksCrlf}
use minifto.Os.{Os}
use minifto.Session.State.{Machine, Run, done, panicked, out_of_fuel}
use minifto.Session.Dispatch.{handle_command}
use minifto.LocalClient.{Peer, LocalClient, send_cmd}

-- The session, and what it has sent that the client has not taken yet.
pub record Pipe (os : Os) : Type 0 where
  pub machine : Machine os
  pub pending : Bytes

abbrev cut : Bytes → Option ℕ → Option Bytes × Bytes
cut s none = (none, s)
cut s (some n) = (some (take (n + 2) s), drop (n + 2) s)

abbrev take_line : Bytes → Option Bytes × Bytes
take_line s = cut s (find_crlf s)

-- The client takes a line with its end, whatever stands behind it.
take_line-append :
    (line rest : Bytes)
    → LacksCrlf line
    → take_line ((line ++ crlf) ++ rest) ≡ (some (line ++ crlf), rest)
take_line-append line rest h =
    let found : find_crlf ((line ++ crlf) ++ rest) ≡ some (length line) =
      ap find_crlf (append_assoc line crlf rest) ∙ find_crlf-append line rest h in
    let size : length line + 2 ≡ length (line ++ crlf) = omega (arith, length-append line crlf) in
    ap (cut ((line ++ crlf) ++ rest)) found
    ∙ rw (size, take-append (line ++ crlf) rest, drop-append (line ++ crlf) rest) refl

take_line-encode_answer :
    (c : ResultCode) (m rest : Bytes)
    → LacksCrlf m
    → is_empty m ≡ false
    → take_line (encode_answer (Answer.new c m) [] ++ rest)
      ≡ (some (encode_answer (Answer.new c m) []), rest)
unfolding encode_answer Answer.new
take_line-encode_answer c [] rest line text = cc
take_line-encode_answer c (x ∷ m) rest line text =
    subst (λ s. take_line (s ++ rest) ≡ (some s, rest))
      (append_assoc (show (number c)) (b' ' ∷ x ∷ m) crlf)
      (take_line-append (show (number c) ++ b' ' ∷ x ∷ m) rest (
        number-LacksCrlf c (b' ' ∷ x ∷ m)
          (LacksCrlf-append (b' ' ∷ []) (x ∷ m) (omega arith) line)))

module _ (os : Os) (file_info : Bytes → os.World → Option Bytes) (fuel : ℕ) where
  -- The client takes a line of what it has and of what the session has sent now.
  abbrev answered : Pipe os → Run os → Option Bytes × Pipe os
  answered p (done m) =
      let r = take_line (p.pending ++ m.sent) in (r.0, record { machine = m; pending = r.1 })
  answered p (panicked m) = (none, record p { machine = m })
  answered p out_of_fuel = (none, p)

  unfoldable pub exchange : (msg : Bytes) → Pipe os → Option Bytes × Pipe os
  unfolding handle_command
  exchange msg p =
      answered p (handle_command file_info fuel (some msg) (record p.machine { sent = [] }))

  -- The client's side, with no data connection, terminal or file.
  abbrev pub at_session : Peer
  at_session = record {
    World = Pipe os;
    Conn = Unit;
    connect = λ addr p. (some tt, p);
    exchange = λ conn msg p. exchange msg p;
    accept = λ addr p. (none, p);
    read_buf = λ conn p. ([], p);
    send_file = λ conn file p. (none, p);
    shutdown = λ conn p. p;
    read_line = λ p. (none, p);
    open_file = λ file p. (false, p);
    write = λ file buf p. (none, p);
  }

  -- The client gets the first answer of those that it has not taken yet and those that the session
  -- sends for the command.
  pub send_cmd-handle_command :
      (from_i32 : ℤ → Option ResultCode)
      (from_number : (c : ResultCode) → from_i32 (pos (number c)) ≡ some c) (cmd rest : Bytes)
      (c : ResultCode) (text : Bytes) (m : Machine os) (client : LocalClient Unit) (p : Pipe os)
      → client.cmd_conn ≡ some tt
      → handle_command file_info fuel (some (encode_bytes cmd [])) (record p.machine { sent = [] })
        ≡ done m
      → p.pending ++ m.sent ≡ encode_answer (Answer.new c text) [] ++ rest
      → is_utf8 text ≡ true
      → LacksCrlf text
      → is_empty text ≡ false
      → send_cmd at_session from_i32 cmd (client, p)
        ≡ returns ((client, record { machine = m; pending = rest }), some (Answer.new c text))
  unfolding send_cmd exchange
  send_cmd-handle_command from_i32 from_number cmd rest c text m client p bound run sent utf8 line
        some_text =
      let exchanged : exchange (encode_bytes cmd []) p
          ≡ (some (encode_answer (Answer.new c text) []), record { machine = m; pending = rest }) =
        ap (answered p) run
        ∙ ap (λ s. let r = take_line s in (r.0, record { machine = m; pending = r.1 })) (sent)
        ∙ ap (λ r. (r.0, record { machine = m; pending = r.1 }))
            (take_line-encode_answer c text rest line some_text) in
      let decoded : decode_answer from_i32 (encode_answer (Answer.new c text) [])
          ≡ returns (ok (some (Answer.new c text))) =
        decode_answer-encode_answer from_i32 from_number c text utf8 line ∙ rw (some_text) refl in
      rw (bound, exchanged, decoded) refl
