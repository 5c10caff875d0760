-- ===== src/Text/Decimal.antt =====
-- Decimal numbers: `Display` of an unsigned integer, and `FromStr` of the machine integers.
use minifto.Common.{
  ℕ, zero, suc, ◌+◌, ◌-◌, ◌*◌, ◌/◌, ◌%◌, ◌≤◌, ◌<◌, ◌≡◌, refl, ◌∙◌, ◌&&◌, [], ◌∷◌, ◌++◌, ◌≢◌, inl,
  inr, ap, Option, none, some, arith, ltb, leb, ◌==◌, if◌then◌else◌, Bytes, Bool-cases, All,
  All-append,
}
use minifto.Common.Int.{ℤ, pos, neg_ℕ}
use mathlib.Core.Option

-- The digits of a number below `10 ^ fuel`.
show_digits : (fuel n : ℕ) → Bytes
show_digits zero n = []
show_digits (suc fuel) n =
    let front = show_digits fuel (n / 10) in
    if ltb n 10 then (b'0' + n) ∷ [] else front ++ (b'0' + n % 10) ∷ []

-- `format!("{}", n)`; `n + 1` digits are enough for any `n`.
unfoldable pub show : ℕ → Bytes
unfolding show_digits
show n = show_digits (suc n) n

-- `acc` and the digits that follow, or `none` past `max` or at any other byte.
unfoldable pub scan_digits : (max acc : ℕ) → Bytes → Option ℕ
scan_digits max acc [] = some acc
scan_digits max acc (c ∷ s) =
    let value : ℕ = acc * 10 + (c - b'0') in
    let rest = scan_digits max value s in
    if leb b'0' c && leb c b'9' then (if ltb max value then none else rest) else none

-- One digit at least.
digits_of : (max : ℕ) → Bytes → Option ℕ
digits_of max [] = none
digits_of max (c ∷ s) = scan_digits max 0 (c ∷ s)

-- `u8::from_str`, `u32::from_str`: a sign `+` may stand in front.
unfoldable pub parse_unsigned : (max : ℕ) → Bytes → Option ℕ
unfolding digits_of scan_digits
parse_unsigned max [] = none
parse_unsigned max (c ∷ s) = if c == b'+' then digits_of max s else digits_of max (c ∷ s)

-- `i32::from_str`, `i64::from_str`, where `max` is the greatest value.
unfoldable pub parse_signed : (max : ℕ) → Bytes → Option ℤ
unfolding digits_of scan_digits
parse_signed max [] = none
parse_signed max (c ∷ s) =
    if c == b'+'
    then Option.map pos (digits_of max s)
    else if c == b'-'
    then Option.map neg_ℕ (digits_of (max + 1) s)
    else Option.map pos (digits_of max (c ∷ s))

abbrev pub IsDigit : ℕ → Type 0
IsDigit c = (b'0' ≤ c) × (c ≤ b'9')

show_digits-IsDigit : (fuel n : ℕ) → All IsDigit (show_digits fuel n)
unfolding show_digits
show_digits-IsDigit zero n = tt
show_digits-IsDigit (suc fuel) n = elim (Bool-cases (ltb n 10)) [
  | inl small ↦ rw small (ground arith)
  | inr large ↦ rw large (All-append IsDigit _ _ (show_digits-IsDigit fuel (n / 10)) (omega arith))
]

pub show-IsDigit : (n : ℕ) → All IsDigit (show n)
unfolding show
show-IsDigit n = show_digits-IsDigit (suc n) n

scan_digits-append :
    (max acc : ℕ) (xs ys : Bytes)
    → scan_digits max acc (xs ++ ys)
      ≡ Option.bind (scan_digits max acc xs) (λ v. scan_digits max v ys)
unfolding scan_digits Option.bind
scan_digits-append max acc [] ys = refl
scan_digits-append max acc (c ∷ xs) ys =
    ground (arith, scan_digits-append max (acc * 10 + (c - b'0')) xs ys)

scan_digits-show_digits :
    (max fuel n : ℕ) → n < fuel → n ≤ max → scan_digits max 0 (show_digits fuel n) ≡ some n
unfolding show_digits Option.bind
scan_digits-show_digits max zero n h k = absurd (omega arith)
scan_digits-show_digits max (suc fuel) n h k = elim (Bool-cases (ltb n 10)) [
  | inl small ↦ rw small (unfold scan_digits in ground arith)
  | inr large ↦
      rw
        (
          large,
          scan_digits-append,
          scan_digits-show_digits max fuel (n / 10) (ground arith) (ground arith),
        )
        (unfold scan_digits in ground arith)
]

show-ne-nil : (n : ℕ) → show n ≢ []
unfolding show show_digits
show-ne-nil n = ground (arith, append-ne (show_digits n (n / 10)))
  where
    append-ne : (xs : Bytes) → xs ++ (b'0' + n % 10) ∷ [] ≢ []
    append-ne [] = cc
    append-ne (x ∷ xs) = cc

digits_of-IsDigit : (max : ℕ) (s : Bytes) → s ≢ [] → digits_of max s ≡ scan_digits max 0 s
unfolding digits_of
digits_of-IsDigit max [] h = absurd (h refl)
digits_of-IsDigit max (c ∷ s) h = refl

parse_unsigned-IsDigit :
    (max : ℕ) (s : Bytes) → All IsDigit s → s ≢ [] → parse_unsigned max s ≡ scan_digits max 0 s
unfolding parse_unsigned
parse_unsigned-IsDigit max [] d h = absurd (h refl)
parse_unsigned-IsDigit max (c ∷ s) d h = ground arith

parse_signed-IsDigit :
    (max : ℕ) (s : Bytes)
    → All IsDigit s
    → s ≢ []
    → parse_signed max s ≡ Option.map pos (scan_digits max 0 s)
unfolding parse_signed
parse_signed-IsDigit max [] d h = absurd (h refl)
parse_signed-IsDigit max (c ∷ s) d h = ground arith

-- A printed number is read back, if it is in range.
pub parse_unsigned-show : (max n : ℕ) → n ≤ max → parse_unsigned max (show n) ≡ some n
unfolding show
parse_unsigned-show max n h =
    parse_unsigned-IsDigit max (show n) (show-IsDigit n) (show-ne-nil n)
    ∙ scan_digits-show_digits max (suc n) n (omega arith) h

pub parse_signed-show : (max n : ℕ) → n ≤ max → parse_signed max (show n) ≡ some (pos n)
unfolding show
parse_signed-show max n h =
    parse_signed-IsDigit max (show n) (show-IsDigit n) (show-ne-nil n)
    ∙ ap (Option.map pos) (scan_digits-show_digits max (suc n) n (omega arith) h)

scan_digits-le :
    (max acc : ℕ) (s : Bytes) (n : ℕ) → acc ≤ max → scan_digits max acc s ≡ some n → n ≤ max
unfolding scan_digits
scan_digits-le max acc [] n h e = ground arith
scan_digits-le max acc (c ∷ s) n h e =
    ground (arith, scan_digits-le max (acc * 10 + (c - b'0')) s n)

-- What is read is in range.
pub parse_unsigned-le : (max : ℕ) (s : Bytes) (n : ℕ) → parse_unsigned max s ≡ some n → n ≤ max
unfolding parse_unsigned digits_of
parse_unsigned-le max [] n e = cc
parse_unsigned-le max (c ∷ []) n e = ground (arith, scan_digits-le max 0 (c ∷ []) n)
parse_unsigned-le max (c ∷ d ∷ s) n e =
    ground (arith, scan_digits-le max 0 (c ∷ d ∷ s) n, scan_digits-le max 0 (d ∷ s) n)
