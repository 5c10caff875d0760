-- ===== src/Buffer/Read.antt =====
-- The loop of `read`: each answer of `readv` joins the queue, and the loop goes on exactly after
-- an answer that filled both slices.
use minifto.Common.{
  ℕ, suc, ◌+◌, ◌^◌, ◌<◌, ◌≡◌, sym, some, [], ◌∷◌, ◌++◌, append-nil, arith, Bytes, length, returns,
  subst, ap, true, false, ◌==◌, eq→==,
}
use minifto.Buffer.{Buffer, ReadAnswer, failed, got, writable_bytes, extra_size, receive, read}
use minifto.Buffer.Queue.{IsQueue}
use minifto.Buffer.Receive.{receive_lem}

module _ (readv : ℕ → ℕ → ReadAnswer) (fuel i : ℕ) (b : Buffer) (c : Bytes) (q : IsQueue b c)
    (len : ℕ) where
  -- An error ends the loop, and nothing is read.
  pub read_failed :
      readv i (writable_bytes b + extra_size) ≡ failed
      → read readv (suc fuel) i b len ≡ returns (some (b, len))
  unfolding read
  read_failed e = rw (e, read)

  read_stop :
      (x : ℕ) (s : Bytes) (b' : Buffer)
      → readv i (writable_bytes b + extra_size) ≡ got (x ∷ s)
      → receive b (x ∷ s) ≡ returns b'
      → length (x ∷ s) < writable_bytes b + extra_size
      → read readv (suc fuel) i b len ≡ returns (some (b', len + length (x ∷ s)))
  unfolding read
  read_stop x s b' e r short = ground arith

  -- On a buffer that holds the queue `c`, if `readv` gives fewer bytes than the vector and
  -- `extrabuf` have room for, and the sizes are below `2 ^ 61`, then one round of `read` is
  -- enough: it returns the count with the number of these bytes added, and a buffer that holds `c`
  -- with them behind it.
  pub read_short :
      (s : Bytes)
      → readv i (writable_bytes b + extra_size) ≡ got s
      → length s < writable_bytes b + extra_size
      → length b.bytes + length s < 2 ^ 61
      → (b' : Buffer) × (read readv (suc fuel) i b len ≡ returns (some (b', len + length s)))
        × IsQueue b' (c ++ s)
  read_short [] e short small = (
    b,
    unfold read in rw (e, read) (ap (λ (n : ℕ). returns (some (b, n))) (omega arith)),
    subst (IsQueue b) (sym (append-nil c)) q,
  )
  read_short (x ∷ s) e short small =
      let (b', r, q') = receive_lem b c q (x ∷ s) small in (b', read_stop x s b' e r short, q')

  read_on :
      (x : ℕ) (s : Bytes) (b' : Buffer)
      → readv i (writable_bytes b + extra_size) ≡ got (x ∷ s)
      → receive b (x ∷ s) ≡ returns b'
      → (length (x ∷ s) == writable_bytes b + extra_size) ≡ true
      → read readv (suc fuel) i b len ≡ read readv fuel (suc i) b' (len + length (x ∷ s))
  unfolding read
  read_on x s b' e r t =
      let some_read : (length (x ∷ s) == 0) ≡ false = ground arith in rw (e, read, some_read, r, t)

  -- An answer that filled the slices joins the queue, and the next call follows.
  pub read_full :
      (s : Bytes)
      → readv i (writable_bytes b + extra_size) ≡ got s
      → length s ≡ writable_bytes b + extra_size
      → length b.bytes + length s < 2 ^ 61
      → (b' : Buffer) × (read readv (suc fuel) i b len
          ≡ read readv fuel (suc i) b' (len + length s))
        × IsQueue b' (c ++ s)
  read_full [] e full small = absurd (omega arith)
  read_full (x ∷ s) e full small =
      let (b', r, q') = receive_lem b c q (x ∷ s) small in
      (b', read_on x s b' e r (eq→== _ _ full), q')
