-- ===== src/Buffer/Receive.antt =====
-- `receive`: what `readv` has scattered over two slices joins the queue in order.
use minifto.Common.{
  ◌+◌, ◌^◌, ◌≤◌, ◌<◌, ◌≡◌, refl, ap, ◌∙◌, inl, inr, true, false, ◌++◌, append_assoc, arith, Bytes,
  length, take, drop, length-append, length-take, length-drop, take-append-drop, take_of_length-le,
  leb, leb→le, not-leb→lt, Bool-cases, returns, subst,
}
use minifto.Buffer.{Buffer, copy_to, writable_bytes, append, receive}
use minifto.Buffer.Queue.{IsQueue, length-IsQueue}
use minifto.Buffer.Append.{put, copy_lem, put_lem, writable_lem, append_lem}

module _ (b : Buffer) (c : Bytes) (q : IsQueue b c) where
  -- `b'` is the buffer with as much of `s` as the vector takes.
  abbrev Fills : Bytes → Buffer → Type 0
  Fills s b' =
      (copy_to b.bytes b.write_index (take (writable_bytes b) s) ≡ returns b'.bytes)
      × (record b { bytes = b'.bytes; write_index = length b'.bytes } ≡ b')

  receive_short :
      (s : Bytes)
      → leb (length s) (writable_bytes b) ≡ true
      → take (writable_bytes b) s ≡ s
      → receive b s ≡ put b s
  unfolding receive
  receive_short s t e = rw (e, t)

  receive_long :
      (s : Bytes) (b' : Buffer)
      → leb (length s) (writable_bytes b) ≡ false
      → Fills s b'
      → receive b s ≡ append b' (drop (writable_bytes b) s)
  unfolding receive
  receive_long s b' t (e, e') = rw (e, t) (ap (λ x. append x (drop (writable_bytes b) s)) e')

  joined : (s : Bytes) → (c ++ take (writable_bytes b) s) ++ drop (writable_bytes b) s ≡ c ++ s
  joined s =
      append_assoc c (take (writable_bytes b) s) (drop (writable_bytes b) s)
      ∙ ap (◌++◌ c) (take-append-drop (writable_bytes b) s)

  -- The first slice takes as many bytes as it has, and the vector is full.
  fill_lem :
      (s : Bytes)
      → writable_bytes b ≤ length s
      → (b' : Buffer) × Fills s b'
        × IsQueue b' (c ++ take (writable_bytes b) s)
        × (length b'.bytes ≡ length b.bytes)
  fill_lem s h =
      let first : Bytes = take (writable_bytes b) s in
      let v : Bytes = q.before ++ ((c ++ first) ++ drop (length first) q.after) in
      let taken : length first ≡ length q.after =
        omega (arith, length-take (writable_bytes b) s, writable_lem b c q) in
      let len : length v ≡ length q.before + (length c + length first) = omega (
        arith,
        length-append q.before ((c ++ first) ++ drop (length first) q.after),
        length-append (c ++ first) (drop (length first) q.after),
        length-append c first,
        length-drop (length first) q.after,
      ) in
      (
        record b { bytes = v; write_index = length v },
        (copy_lem b c q first (omega arith), refl),
        record {
          before = q.before;
          after = drop (length first) q.after;
          whole = refl;
          at_read = q.at_read;
          at_write = omega (arith, length-append c first);
          small = omega (arith, length-IsQueue b c q, q.small);
        },
        omega (arith, length-IsQueue b c q),
      )

  -- On a buffer that holds the queue `c`, whose size with what `readv` has read is below `2 ^ 61`,
  -- the arm `Ok(n)` of `read` returns, and the buffer then holds `c` with these bytes behind it,
  -- in order, whether or not they ran over into `extrabuf`.
  pub receive_lem :
      (s : Bytes)
      → length b.bytes + length s < 2 ^ 61
      → (b' : Buffer) × (receive b s ≡ returns b') × IsQueue b' (c ++ s)
  receive_lem s small = elim (Bool-cases (leb (length s) (writable_bytes b))) [
    | inl t ↦
        let fits = leb→le (length s) (writable_bytes b) t in
        let (b', e, q') = put_lem b c q s (omega (arith, writable_lem b c q)) in
        (b', receive_short s t (take_of_length-le (writable_bytes b) s fits) ∙ e, q')
    | inr t ↦
        let more = not-leb→lt (length s) (writable_bytes b) t in
        let (filled, e, q1, len) = fill_lem s (omega arith) in
        let (b', e', q') =
          append_lem filled (c ++ take (writable_bytes b) s) q1 (drop (writable_bytes b) s)
            (omega (arith, length-drop (writable_bytes b) s)) in
        (b', receive_long s filled t e ∙ e', subst (IsQueue b') (joined s) q')
  ]
