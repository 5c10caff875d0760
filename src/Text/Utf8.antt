-- ===== src/Text/Utf8.antt =====
-- `str::from_utf8`, `String::from_utf8_lossy` and `to_ascii_uppercase`.
use minifto.Common.{
  ℕ, zero, suc, ◌-◌, ◌<◌, ◌≡◌, refl, ap, ◌⊎◌, inl, inr, Bool, true, false, ◌&&◌, [], ◌∷◌, ◌++◌, map,
  Option, none, some, arith, ltb, leb, ◌==◌, if◌then◌else◌, Bytes, get_or, All,
}

within : ℕ → ℕ → ℕ → Bool
within lo hi b = leb lo b && leb b hi

-- The bytes that may follow the first byte of a sequence of three or four bytes.
second_ok : ℕ → ℕ → Bool
unfolding within
second_ok b c =
    if b == 0xE0
    then within 0xA0 0xBF c
    else if b == 0xED
    then within 0x80 0x9F c
    else if b == 0xF0
    then within 0x90 0xBF c
    else if b == 0xF4
    then within 0x80 0x8F c
    else within 0x80 0xBF c

-- The first sequence of a text: a character, or an invalid sequence, which is the longest prefix
-- of a character and of one byte at least. `n` counts the bytes after the first.
pub data Sequence : Type 0 where
  character : (n : ℕ) → Sequence
  invalid : (n : ℕ) → Sequence

sequence : ℕ → Bytes → Sequence
unfolding within second_ok
sequence b rest =
    let c : ℕ = get_or rest 0 0 in
    let d : ℕ = get_or rest 1 0 in
    let e : ℕ = get_or rest 2 0 in
    if ltb b 0x80
    then character 0
    else if within 0xC2 0xDF b
    then (if within 0x80 0xBF c then character 1 else invalid 0)
    else if within 0xE0 0xEF b
    then (if second_ok b c
        then (if within 0x80 0xBF d then character 2 else invalid 1)
        else invalid 0)
    else if within 0xF0 0xF4 b
    then (if second_ok b c
        then (if within 0x80 0xBF d
            then (if within 0x80 0xBF e then character 3 else invalid 2)
            else invalid 1)
        else invalid 0)
    else invalid 0

-- U+FFFD
abbrev replacement : Bytes
replacement = 0xEF ∷ 0xBF ∷ 0xBD ∷ []

-- The walk over the text. `copy` bytes of a character and `skip` bytes of an invalid sequence are
-- still to come.
lossy_from : (copy skip : ℕ) → Bytes → Bytes
lossy_from copy skip [] = []
lossy_from (suc copy) skip (b ∷ rest) = b ∷ lossy_from copy skip rest
lossy_from zero (suc skip) (b ∷ rest) = lossy_from zero skip rest
lossy_from zero zero (b ∷ rest) = elim (sequence b rest) [
  | character n ↦ b ∷ lossy_from n zero rest
  | invalid n ↦ replacement ++ lossy_from zero n rest
]

-- `String::from_utf8_lossy`
unfoldable pub from_utf8_lossy : Bytes → Bytes
unfolding lossy_from sequence
from_utf8_lossy s = lossy_from zero zero s

valid_from : (copy : ℕ) → Bytes → Bool
valid_from copy [] = true
valid_from (suc copy) (b ∷ rest) = valid_from copy rest
valid_from zero (b ∷ rest) = elim (sequence b rest) [
  | character n ↦ valid_from n rest
  | invalid n ↦ false
]

-- `str::from_utf8` succeeds.
unfoldable pub is_utf8 : Bytes → Bool
unfolding valid_from sequence
is_utf8 s = valid_from zero s

-- `str::from_utf8(s).ok()`
unfoldable pub from_utf8 : Bytes → Option Bytes
unfolding is_utf8
from_utf8 s = if is_utf8 s then some s else none

-- `u8::to_ascii_uppercase`, and on a whole text.
unfoldable pub to_upper : ℕ → ℕ
to_upper b = if leb b'a' b && leb b b'z' then b - 32 else b

unfoldable pub to_ascii_uppercase : Bytes → Bytes
unfolding to_upper
to_ascii_uppercase s = map to_upper s

Sequence-cases : (q : Sequence) → ((n : ℕ) × (q ≡ character n)) ⊎ ((n : ℕ) × (q ≡ invalid n))
Sequence-cases (character n) = inl (n, refl)
Sequence-cases (invalid n) = inr (n, refl)

lossy_from-valid_from :
    (copy : ℕ) (s : Bytes) → valid_from copy s ≡ true → lossy_from copy zero s ≡ s
unfolding lossy_from valid_from
lossy_from-valid_from copy [] h = refl
lossy_from-valid_from (suc copy) (b ∷ rest) h = ap (◌∷◌ b) (lossy_from-valid_from copy rest h)
lossy_from-valid_from zero (b ∷ rest) h = elim (Sequence-cases (sequence b rest)) [
  | inl (n, e) ↦
      rw (e, lossy_from) (ap (◌∷◌ b) (lossy_from-valid_from n rest (rw (e, valid_from) at h)))
  | inr (n, e) ↦ ground arith
]

-- On valid UTF-8 the lossy conversion changes nothing.
pub from_utf8_lossy-is_utf8 : (s : Bytes) → is_utf8 s ≡ true → from_utf8_lossy s ≡ s
unfolding from_utf8_lossy is_utf8
from_utf8_lossy-is_utf8 s h = lossy_from-valid_from zero s h

-- Text of ASCII bytes.
abbrev pub IsAscii : Bytes → Type 0
IsAscii = All (λ b. b < 128)

pub is_utf8_of_ascii : (s : Bytes) → IsAscii s → is_utf8 s ≡ true
unfolding is_utf8 sequence
is_utf8_of_ascii [] h = refl
is_utf8_of_ascii (b ∷ s) h = ground (arith, is_utf8_of_ascii s h.1)

-- ASCII in front of a text changes nothing.
pub is_utf8-append : (w s : Bytes) → IsAscii w → is_utf8 (w ++ s) ≡ is_utf8 s
unfolding is_utf8 sequence
is_utf8-append [] s h = refl
is_utf8-append (b ∷ w) s h = ground (arith, is_utf8-append w s h.1)
