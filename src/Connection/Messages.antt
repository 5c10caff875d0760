-- ===== src/Connection/Messages.antt =====
-- net/connection.rs: the messages that `read_msg` makes of the bytes of the peer.
use minifto.Common.{
  ℕ, suc, ◌+◌, ◌^◌, ◌<◌, ◌≡◌, refl, subst, Option, none, some, [], ◌∷◌, ◌++◌, arith, Bytes, length,
  returns, ◌==◌, false, ◌⊎◌, inl, inr,
}
use minifto.Text.Split.{LacksCrlf}
use minifto.Buffer.{ReadAnswer, failed, got, writable_bytes, extra_size}
use minifto.Buffer
use minifto.Buffer.Queue.{IsQueue}
use minifto.Buffer.Take.{get_crlf_line_lem, get_crlf_line-none}
use minifto.Buffer.Read.{read_short, read_failed}
use minifto.Connection.{Connection, read_msg}

module _ (readv : ℕ → ℕ → ReadAnswer) (fuel : ℕ) (c : Connection) (q : Bytes)
    (held : IsQueue c.input_buf q) where
  -- `readv` gives the bytes `s`, and they are all that it has.
  pub record Arrives (s : Bytes) : Type 0 where
    pub answer : readv 0 (writable_bytes c.input_buf + extra_size) ≡ got s
    pub short : length s < writable_bytes c.input_buf + extra_size
    pub small : length c.input_buf.bytes + length s < 2 ^ 61

  -- The outcome of `read_msg`: a message, and what the buffer then holds.
  pub Reads : Option Bytes → Bytes → Type 0
  Reads msg rest =
      (c' : Connection) × (read_msg readv (suc fuel) c ≡ returns (some (c', msg)))
      × IsQueue c'.input_buf rest

  -- If the buffer of a connection holds the queue `q`, and `readv` gives at least one byte, fewer
  -- than there is room for, in sizes below `2 ^ 61`, and these bytes behind `q` begin with a line
  -- without a line end in it and its line end, then `read_msg` returns that line with its line
  -- end, and the buffer then holds the rest.
  pub read_msg-line :
      (x : ℕ) (s l r : Bytes)
      → Arrives (x ∷ s)
      → q ++ x ∷ s ≡ l ++ b'\r' ∷ b'\n' ∷ r
      → LacksCrlf l
      → Reads (some (l ++ b'\r' ∷ b'\n' ∷ [])) r
  unfolding Reads read_msg
  read_msg-line x s l r a e lacks =
      let (b, run, queue) =
        read_short readv fuel 0 c.input_buf q held 0 (x ∷ s) a.answer a.short a.small in
      let (b', line, queue') = get_crlf_line_lem b l r (subst (IsQueue b) e queue) lacks in
      let some_read : (0 + length (x ∷ s) == 0) ≡ false = ground arith in
      (record c { input_buf = b' }, rw (run, some_read, line) refl, queue')

  pub read_msg-part :
      (x : ℕ) (s : Bytes) → Arrives (x ∷ s) → LacksCrlf (q ++ x ∷ s) → Reads none (q ++ x ∷ s)
  unfolding Reads read_msg
  read_msg-part x s a lacks =
      let (b, run, queue) =
        read_short readv fuel 0 c.input_buf q held 0 (x ∷ s) a.answer a.short a.small in
      let some_read : (0 + length (x ∷ s) == 0) ≡ false = ground arith in
      (
        record c { input_buf = b },
        rw (run, some_read, get_crlf_line-none b (q ++ x ∷ s) queue lacks) refl,
        queue,
      )

  read-empty :
      readv 0 (writable_bytes c.input_buf + extra_size) ≡ got []
      → Buffer.read readv (suc fuel) 0 c.input_buf 0 ≡ returns (some (c.input_buf, 0))
  unfolding Buffer.read
  read-empty e = rw (e, Buffer.read) refl

  -- If `readv` fails or gives nothing, then `read_msg` returns no message and leaves the queue of
  -- the buffer as it is, even if a line is in it.
  pub read_msg-idle :
      (readv 0 (writable_bytes c.input_buf + extra_size) ≡ failed)
        ⊎ (readv 0 (writable_bytes c.input_buf + extra_size) ≡ got [])
      → Reads none q
  unfolding Reads read_msg
  read_msg-idle (inl e) = (c, rw (read_failed readv fuel 0 c.input_buf q held 0 e) refl, held)
  read_msg-idle (inr e) = (c, rw (read-empty e) refl, held)
