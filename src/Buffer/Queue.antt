-- ===== src/Buffer/Queue.antt =====
-- What a buffer stands for: the queue of its readable bytes.
use minifto.Common.{
  ℕ, zero, suc, ◌+◌, ◌-◌, ◌*◌, ◌/◌, ◌^◌, ◌≤◌, ◌<◌, ◌≡◌, refl, ap, ◌∙◌, ◌++◌, arith, Bool-cases, inl,
  inr, true, false, if◌then◌else◌, ltb, ltb→lt, Bytes, length, take, drop, length-append,
  take-append, drop-append, returns,
}
use native.Mathlib.Nat.{pow-suc}
use minifto.Buffer.{Buffer, isize_max, copy_to, slice, approximate_pow, base, rounds_up, bit_length}

-- The bytes before the read index, the readable bytes `c`, and the rest of the vector.
pub record IsQueue (b : Buffer) (c : Bytes) : Type 0 where
  pub before : Bytes
  pub after : Bytes
  pub whole : b.bytes ≡ before ++ (c ++ after)
  pub at_read : b.read_index ≡ length before
  pub at_write : b.write_index ≡ length before + length c
  pub small : length b.bytes ≤ isize_max

pub length-IsQueue :
    (b : Buffer) (c : Bytes) (q : IsQueue b c)
    → length b.bytes ≡ length q.before + (length c + length q.after)
length-IsQueue b c q =
    ap length q.whole
    ∙ omega (arith, length-append q.before (c ++ q.after), length-append c q.after)

slice_at :
    (v : Bytes) (from to : ℕ)
    → from ≤ to
    → to ≤ length v
    → slice v from to ≡ returns (take (to - from) (drop from v))
unfolding slice
slice_at v from to h k = ground arith

-- The vector part that a range of it names.
pub slice-append :
    (xs ys zs : Bytes) (from to : ℕ)
    → from ≡ length xs
    → to ≡ length xs + length ys
    → slice (xs ++ (ys ++ zs)) from to ≡ returns ys
slice-append xs ys zs from to e f =
    slice_at (xs ++ (ys ++ zs)) from to (omega arith)
      (omega (arith, length-append xs (ys ++ zs), length-append ys zs))
    ∙ rw (e, drop-append xs (ys ++ zs), len, take-append ys zs)
  where
    len : to - length xs ≡ length ys
    len = omega arith

copy_to_at :
    (v : Bytes) (i : ℕ) (src : Bytes)
    → i + length src ≤ length v
    → copy_to v i src ≡ returns (take i v ++ (src ++ drop (length src) (drop i v)))
unfolding copy_to
copy_to_at v i src h = ground arith

pub copy_to-append :
    (xs src zs : Bytes) (i : ℕ)
    → i ≡ length xs
    → length src ≤ length zs
    → copy_to (xs ++ zs) i src ≡ returns (xs ++ (src ++ drop (length src) zs))
copy_to-append xs src zs i e h =
    copy_to_at (xs ++ zs) i src (omega (arith, length-append xs zs))
    ∙ rw (e, take-append xs zs, drop-append xs zs)

bit_length-lt : (fuel n : ℕ) → n < 2 ^ fuel → n < 2 ^ bit_length fuel n
unfolding bit_length
bit_length-lt zero n h = omega arith
bit_length-lt (suc fuel) n h =
    ground (arith, bit_length-lt fuel (n / 2), pow-suc 2 fuel, pow-suc 2 (bit_length fuel (n / 2)))

bit_length-zero : (fuel : ℕ) → bit_length fuel 0 ≡ 0
unfolding bit_length
bit_length-zero zero = refl
bit_length-zero (suc fuel) = refl

bit_length-le : (fuel n : ℕ) → 1 ≤ n → 2 ^ bit_length fuel n ≤ 2 * n
unfolding bit_length
bit_length-le zero n h = omega arith
bit_length-le (suc fuel) zero h = elim h [ ]
bit_length-le (suc fuel) (suc zero) h = rw (bit_length-zero fuel) (omega arith)
bit_length-le (suc fuel) (suc (suc n)) h =
    ground
      (arith, bit_length-le fuel (suc (suc n) / 2), pow-suc 2 (bit_length fuel (suc (suc n) / 2)))

bit_length-below : (fuel k n : ℕ) → n < 2 ^ k → bit_length fuel n ≤ k
unfolding bit_length
bit_length-below zero k n h = omega arith
bit_length-below (suc fuel) zero n h = ground arith
bit_length-below (suc fuel) (suc k) n h =
    ground (arith, bit_length-below fuel k (n / 2), pow-suc 2 k)

exact : (digits n : ℕ) → digits ≤ 48 → rounds_up digits n ≡ false
unfolding rounds_up
exact digits n h = ground arith

-- The power, where it does not wrap.
approximate_pow-base : (n : ℕ) → 2 ^ base n < 2 ^ 64 → approximate_pow n ≡ 2 ^ base n
unfolding approximate_pow
approximate_pow-base n h = omega arith

base-up : (n : ℕ) → rounds_up (bit_length 64 n) n ≡ true → 2 ^ base n ≡ 2 ^ bit_length 64 n * 2
unfolding base
base-up n up =
    rw (up) (ap (◌^◌ 2) (add-one (bit_length 64 n)) ∙ pow-suc 2 (bit_length 64 n) ∙ omega arith)
  where
    add-one : (digits : ℕ) → digits + 1 ≡ suc digits
    add-one digits = omega arith

base-down : (n : ℕ) → rounds_up (bit_length 64 n) n ≡ false → 2 ^ base n ≡ 2 ^ bit_length 64 n
unfolding base
base-down n down = rw (down) refl

up-large : (n : ℕ) → rounds_up (bit_length 64 n) n ≡ true → ltb n (2 ^ 48) ≡ false
up-large n up = elim (Bool-cases (ltb n (2 ^ 48))) [
  | inl small ↦
      let same = exact (bit_length 64 n) n (bit_length-below 64 48 n (ltb→lt n (2 ^ 48) small)) in
      absurd (ground (arith, up, same))
  | inr large ↦ large
]

-- For a size of at least 1 and below `2 ^ 62`, `approximate_pow` is above the size and at most
-- twice it, or at most four times from `2 ^ 48` on, where the logarithm may be rounded up.
pub approximate_pow_bounds :
    (n : ℕ)
    → 1 ≤ n
    → n < 2 ^ 62
    → (n < approximate_pow n) × (approximate_pow n ≤ (if ltb n (2 ^ 48) then 2 * n else 4 * n))
approximate_pow_bounds n h k =
    let above = bit_length-lt 64 n (omega arith) in
    let below = bit_length-le 64 n h in
    elim (Bool-cases (rounds_up (bit_length 64 n) n)) [
      | inl up ↦
          let twice = base-up n up in
          let same = approximate_pow-base n (omega arith) in
          (omega arith, rw (up-large n up) (omega arith))
      | inr down ↦
          let once = base-down n down in
          let same = approximate_pow-base n (omega arith) in (omega arith, ground arith)
    ]

pub approximate_pow_room :
    (n : ℕ) → 1 ≤ n → n < 2 ^ 62 → (n < approximate_pow n) × (approximate_pow n ≤ 4 * n)
approximate_pow_room n h k =
    let (above, below) = approximate_pow_bounds n h k in (above, ground (arith, below))
