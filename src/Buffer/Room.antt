-- ===== src/Buffer/Room.antt =====
-- net/buffer.rs: `adjust_space` makes room behind the queue, whether it shifts the bytes or the vector
-- grows.
use minifto.Common.{
  ℕ, ◌+◌, ◌-◌, ◌^◌, ◌≤◌, ◌<◌, ◌≡◌, refl, ap, ◌∙◌, inl, inr, true, false, [], ◌++◌, append_assoc,
  arith, Bytes, length, drop, replicate, length-append, length-replicate, length-drop, ltb,
  not-ltb→le, Bool-cases, returns, ◌>>=◌, ◌==◌,
}
use minifto.Buffer.{
  Buffer, isize_max, usize_add, resize, copy_to, slice, approximate_pow, readable_bytes, remaining,
  left_shift, adjust_space,
}
use minifto.Buffer.Queue.{
  IsQueue, length-IsQueue, slice-append, copy_to-append, approximate_pow_room,
}

module _ (b : Buffer) (c : Bytes) (q : IsQueue b c) where
  -- The vector grows, and the queue stays.
  grow_lem :
      (n : ℕ)
      → length b.bytes < n
      → n ≤ isize_max
      → (b' : Buffer) × (q' : IsQueue b' c) × ((resize b.bytes n >>= λ v.
            returns (record b { bytes = v }))
          ≡ returns b')
        × (b.write_index + length q'.after ≡ n)
  grow_lem n h k = (
    record b { bytes = b.bytes ++ replicate (n - length b.bytes) 0 },
    record {
      before = q.before;
      after = q.after ++ replicate (n - length b.bytes) 0;
      whole =
          ap (λ v. v ++ replicate (n - length b.bytes) 0) q.whole
          ∙ append_assoc q.before (c ++ q.after) _
          ∙ ap (◌++◌ q.before) (append_assoc c q.after _);
      at_read = q.at_read;
      at_write = q.at_write;
      small = omega (
        arith,
        length-append b.bytes (replicate (n - length b.bytes) 0),
        length-replicate {A = ℕ} (n - length b.bytes) 0,
      );
    },
    unfold resize in ground arith,
    omega (
      arith,
      length-append q.after (replicate (n - length b.bytes) 0),
      length-replicate {A = ℕ} (n - length b.bytes) 0,
      length-IsQueue b c q,
      q.at_write,
    ),
  )

  readable_lem : readable_bytes b ≡ length c
  readable_lem = omega (arith, length-IsQueue b c q, q.at_read, q.at_write, q.small)

  -- The bytes move to the start of the vector.
  left_shift_lem :
      (b' : Buffer) × (q' : IsQueue b' c) × (left_shift b ≡ returns b')
      × (length q'.before ≡ 0)
      × (length q'.after ≡ length b.bytes - length c)
  unfolding left_shift
  left_shift_lem = (
    record { bytes = c ++ drop (length c) b.bytes; read_index = 0; write_index = readable_bytes b },
    record {
      before = [];
      after = drop (length c) b.bytes;
      whole = refl;
      at_read = refl;
      at_write = omega (arith, readable_lem);
      small = omega (
        arith,
        length-append c (drop (length c) b.bytes),
        length-drop (length c) b.bytes,
        length-IsQueue b c q,
        q.small,
      );
    },
    rw (sliced, copied),
    refl,
    length-drop (length c) b.bytes,
  )
    where
      sliced : slice b.bytes b.read_index (b.read_index + readable_bytes b) ≡ returns c
      sliced =
          ap (λ v. slice v b.read_index (b.read_index + readable_bytes b)) q.whole
          ∙ slice-append q.before c q.after _ _ q.at_read (omega (arith, q.at_read, readable_lem))

      copied : copy_to b.bytes 0 c ≡ returns (c ++ drop (length c) b.bytes)
      copied = copy_to-append [] c b.bytes 0 refl (omega (arith, length-IsQueue b c q))

-- There is room for `n` bytes behind the queue `c`.
pub record HasRoom (c : Bytes) (n : ℕ) (b : Buffer) : Type 0 where
  pub queue : IsQueue b c
  pub room : n ≤ length queue.after

module _ (b : Buffer) (c : Bytes) (q : IsQueue b c) (n : ℕ) (small : length b.bytes + n < 2 ^ 61)
    (full : length q.after < n) where
  adjust_space_grow :
      (b' : Buffer)
      → ltb (remaining b) n ≡ true
      → (resize b.bytes (approximate_pow (usize_add b.write_index n)) >>= λ v.
          returns (record b { bytes = v }))
        ≡ returns b'
      → adjust_space b n ≡ returns b'
  unfolding adjust_space
  adjust_space_grow b' t e = rw t e

  adjust_space_shift :
      (b' : Buffer)
      → ltb (remaining b) n ≡ false
      → left_shift b ≡ returns b'
      → (readable_bytes b == readable_bytes b') ≡ true
      → adjust_space b n ≡ returns b'
  unfolding adjust_space
  adjust_space_shift b' t e k = rw (t, e, k)

  -- `adjust_space` keeps the queue and makes room.
  pub adjust_space_lem : (b' : Buffer) × (adjust_space b n ≡ returns b') × HasRoom c n b'
  adjust_space_lem = elim (Bool-cases (ltb (remaining b) n)) [
    | inl t ↦
        let (above, below) =
          approximate_pow_room size (omega (arith, length-IsQueue b c q, q.at_write, q.small))
            (omega (arith, length-IsQueue b c q, q.at_write, q.small)) in
        let (b', q', e, len) =
          grow_lem b c q (approximate_pow size)
            (omega (arith, length-IsQueue b c q, q.at_write, q.small))
            (omega (arith, length-IsQueue b c q, q.at_write, q.small)) in
        (
          b',
          adjust_space_grow b' t e,
          record { queue = q'; room = omega (arith, length-IsQueue b c q, q.at_write, q.small) },
        )
    | inr t ↦
        let (b', q', e, zero, len) = left_shift_lem b c q in
        (
          b',
          adjust_space_shift b' t e (ground (arith, readable_lem b c q, readable_lem b' c q')),
          record {
            queue = q';
            room = omega (
              arith,
              not-ltb→le (remaining b) n t,
              readable_lem b c q,
              len,
              length-IsQueue b c q,
              q.small,
            );
          },
        )
  ]
    where
      size : ℕ
      size = usize_add b.write_index n
