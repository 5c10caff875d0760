-- ===== src/Text/Split.antt =====
-- `split` on a byte, `find` of a byte, and `windows(2).position(..)` for a line's end.
use minifto.Common.{
  ℕ, zero, suc, ◌≡◌, ◌≢◌, refl, ap, Bool, true, false, ◌&&◌, List, [], ◌∷◌, ◌++◌, Option, none,
  some, arith, ◌==◌, if◌then◌else◌, Bytes, All, length, take,
}
use mathlib.Core.Option

-- One byte more in front of the pieces: an empty piece if it is a separator.
attach : Bool → ℕ → List Bytes → List Bytes
attach true c pieces = [] ∷ pieces
attach false c [] = (c ∷ []) ∷ []
attach false c (p ∷ pieces) = (c ∷ p) ∷ pieces

-- `s.split(|&byte| byte == sep)`: the pieces between the separators, one at least.
unfoldable pub split : ℕ → Bytes → List Bytes
unfolding attach
split sep [] = [] ∷ []
split sep (c ∷ s) = attach (c == sep) c (split sep s)

-- `s.find(b)`: the first index of the byte.
unfoldable pub find : ℕ → Bytes → Option ℕ
find b [] = none
find b (c ∷ s) = if c == b then some 0 else Option.map suc (find b s)

-- `buf.windows(2).position(|bytes| bytes == b"\r\n")`
unfoldable pub find_crlf : Bytes → Option ℕ
find_crlf [] = none
find_crlf (c ∷ []) = none
find_crlf (c ∷ d ∷ s) =
    if c == b'\r' && d == b'\n' then some 0 else Option.map suc (find_crlf (d ∷ s))

abbrev pub Lacks : ℕ → Bytes → Type 0
Lacks b = All (λ c. c ≢ b)

-- No line end within the text.
abbrev pub LacksCrlf : Bytes → Type 0
LacksCrlf s = find_crlf s ≡ none

module _ (sep : ℕ) where
  -- A piece without the separator is cut off whole.
  pub split-append : (w r : Bytes) → Lacks sep w → split sep (w ++ sep ∷ r) ≡ w ∷ split sep r
  unfolding split
  split-append [] r h = ground arith
  split-append (c ∷ w) r h = ground (arith, split-append w r h.1)

  pub split_whole : (w : Bytes) → Lacks sep w → split sep w ≡ w ∷ []
  unfolding split
  split_whole [] h = refl
  split_whole (c ∷ w) h = ground (arith, split_whole w h.1)

  pub find-append : (w r : Bytes) → Lacks sep w → find sep (w ++ sep ∷ r) ≡ some (length w)
  unfolding find
  find-append [] r h = ground arith
  find-append (c ∷ w) r h = ground (arith, find-append w r h.1)

  pub find_whole : (w : Bytes) → Lacks sep w → find sep w ≡ none
  unfolding find
  find_whole [] h = refl
  find_whole (c ∷ w) h = ground (arith, find_whole w h.1)

-- The first line end is the one behind a text that has none.
pub find_crlf-append :
    (w r : Bytes) → LacksCrlf w → find_crlf (w ++ b'\r' ∷ b'\n' ∷ r) ≡ some (length w)
unfolding find_crlf
find_crlf-append [] r h = refl
find_crlf-append (c ∷ []) r h = ground arith
find_crlf-append (c ∷ d ∷ w) r h = ground (arith, find_crlf-append (d ∷ w) r)

-- What is found is a line end, and no line end begins before it.
pub find_crlf_sound :
    (s : Bytes) (n : ℕ)
    → find_crlf s ≡ some n
    → (r : Bytes) × (s ≡ take n s ++ b'\r' ∷ b'\n' ∷ r)
      × LacksCrlf (take n s)
      × (length (take n s) ≡ n)
unfolding find_crlf
find_crlf_sound [] n h = cc
find_crlf_sound (c ∷ []) n h = cc
find_crlf_sound (c ∷ d ∷ s) zero h = (s, ground arith, refl, refl)
find_crlf_sound (c ∷ d ∷ s) (suc zero) h =
    let (r, whole, lacks, len) = find_crlf_sound (d ∷ s) 0 (ground arith) in
    (r, ap (◌∷◌ c) whole, refl, refl)
find_crlf_sound (c ∷ d ∷ s) (suc (suc n)) h =
    let (r, whole, lacks, len) = find_crlf_sound (d ∷ s) (suc n) (ground arith) in
    (r, ap (◌∷◌ c) whole, ground arith, ap suc len)
