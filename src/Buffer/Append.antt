-- ===== src/Buffer/Append.antt =====
-- `append` puts bytes at the end of the queue, whether the vector has room, is
-- shifted or grows.
use minifto.Common.{
  ◌+◌, ◌^◌, ◌≤◌, ◌<◌, ◌≡◌, refl, ap, ◌∙◌, sym, inl, inr, true, false, ◌++◌, append_assoc, arith,
  Bytes, length, drop, length-append, length-drop, ltb, not-ltb→le, ltb→lt, Bool-cases, Fallible,
  returns, ◌>>=◌,
}
use minifto.Buffer.{Buffer, usize_add, copy_to, writable_bytes, adjust_space, append}
use minifto.Buffer.Room.{adjust_space_lem}
use minifto.Buffer.Queue.{IsQueue, length-IsQueue, copy_to-append}

-- The copy at the end of `append`.
abbrev pub put : Buffer → Bytes → Fallible Buffer
put b buf = copy_to b.bytes b.write_index buf >>= λ v.
    returns (record b { bytes = v; write_index = usize_add b.write_index (length buf) })

module _ (b : Buffer) (c : Bytes) (q : IsQueue b c) where
  -- A copy into the free part of the vector.
  pub copy_lem :
      (src : Bytes)
      → length src ≤ length q.after
      → copy_to b.bytes b.write_index src
        ≡ returns (q.before ++ ((c ++ src) ++ drop (length src) q.after))
  copy_lem src h =
      ap (λ v. copy_to v b.write_index src) (q.whole ∙ sym (append_assoc q.before c q.after))
      ∙ copy_to-append (q.before ++ c) src q.after b.write_index
          (omega (arith, q.at_write, length-append q.before c)) h
      ∙ ap returns (
          append_assoc q.before c (src ++ drop (length src) q.after)
          ∙ ap (◌++◌ q.before) (sym (append_assoc c src (drop (length src) q.after))))

  pub put_lem :
      (buf : Bytes)
      → length buf ≤ length q.after
      → (b' : Buffer) × (put b buf ≡ returns b') × IsQueue b' (c ++ buf)
  put_lem buf h = (
    record b {
      bytes = q.before ++ ((c ++ buf) ++ drop (length buf) q.after);
      write_index = usize_add b.write_index (length buf);
    },
    rw (copy_lem buf h),
    record {
      before = q.before;
      after = drop (length buf) q.after;
      whole = refl;
      at_read = q.at_read;
      at_write = omega (arith, length-append c buf, length-IsQueue b c q, q.at_write, q.small);
      small = omega (
        arith,
        length-append q.before ((c ++ buf) ++ drop (length buf) q.after),
        length-append (c ++ buf) (drop (length buf) q.after),
        length-append c buf,
        length-drop (length buf) q.after,
        length-IsQueue b c q,
        q.small,
      );
    },
  )

module _ (b : Buffer) (c : Bytes) (q : IsQueue b c) where
  pub writable_lem : writable_bytes b ≡ length q.after
  writable_lem = omega (arith, length-IsQueue b c q, q.at_write, q.small)

  append-put :
      (buf : Bytes) → ltb (writable_bytes b) (length buf) ≡ false → append b buf ≡ put b buf
  unfolding append
  append-put buf t = rw t

  append_adjusted :
      (buf : Bytes) (b' : Buffer)
      → ltb (writable_bytes b) (length buf) ≡ true
      → adjust_space b (length buf) ≡ returns b'
      → append b buf ≡ put b' buf
  unfolding append
  append_adjusted buf b' t e = rw (t, e)

  -- On a buffer that holds the queue of bytes `c`, whose size with the new bytes is below `2 ^
  -- 61`, `append` returns, and the buffer then holds `c` with the new bytes behind it, whether it
  -- shifts, grows or has room.
  pub append_lem :
      (buf : Bytes)
      → length b.bytes + length buf < 2 ^ 61
      → (b' : Buffer) × (append b buf ≡ returns b') × IsQueue b' (c ++ buf)
  append_lem buf small = elim (Bool-cases (ltb (writable_bytes b) (length buf))) [
    | inl t ↦
        let (b1, e1, r) =
          adjust_space_lem b c q (length buf) small
            (omega (arith, ltb→lt (writable_bytes b) (length buf) t, writable_lem)) in
        let (b', e, q') = put_lem b1 c r.queue buf r.room in
        (b', append_adjusted buf b1 t e1 ∙ e, q')
    | inr t ↦
        let (b', e, q') =
          put_lem b c q buf
            (omega (arith, not-ltb→le (writable_bytes b) (length buf) t, writable_lem)) in
        (b', append-put buf t ∙ e, q')
  ]
