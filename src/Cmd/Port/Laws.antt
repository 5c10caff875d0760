-- ===== src/Cmd/Port/Laws.antt =====
-- Which ports the argument of PORT can give, and the reading of a printed address.
use minifto.Common.{
  ℕ, zero, suc, ◌+◌, ◌*◌, ◌/◌, ◌%◌, ◌≤◌, ◌<◌, ◌≡◌, List, [], ◌∷◌, ◌++◌, none, some, arith, Bytes,
  Option-cases, get_or, All, All-append, ok, inl, inr,
}
use minifto.Text.Utf8.{from_utf8, is_utf8_of_ascii, IsAscii}
use minifto.Text.Split.{split, Lacks, split-append, split_whole}
use minifto.Text.Decimal.{show, parse_unsigned-show, parse_unsigned-le, IsDigit, show-IsDigit}
use minifto.Cmd.Command.{Command, port}
use minifto.Cmd.Port.{field, fields, extract_port}

field-le : (p : Bytes) (n : ℕ) → field p ≡ some n → n ≤ 255
unfolding field from_utf8
field-le p n e = ground (arith, parse_unsigned-le 255 p n)

fields_number :
    (p : Bytes) (pieces : List Bytes) (n : ℕ)
    → field p ≡ some n
    → fields (p ∷ pieces) ≡ n ∷ fields pieces
unfolding fields
fields_number p pieces n e = ground arith

fields_other :
    (p : Bytes) (pieces : List Bytes) → field p ≡ none → fields (p ∷ pieces) ≡ fields pieces
unfolding fields
fields_other p pieces e = ground arith

fields-le : (pieces : List Bytes) → All (λ n. n ≤ 255) (fields pieces)
fields-le [] = unfold fields in tt
fields-le (p ∷ pieces) = elim (Option-cases (field p)) [
  | inl e ↦ rw (fields_other p pieces e) (fields-le pieces)
  | inr (n, e) ↦ rw (fields_number p pieces n e) (field-le p n e, fields-le pieces)
]

get_or-le : (xs : List ℕ) (i : ℕ) → All (λ n. n ≤ 255) xs → get_or xs i 0 ≤ 255
get_or-le [] i h = omega arith
get_or-le (x ∷ xs) zero h = h.0
get_or-le (x ∷ xs) (suc i) h = get_or-le xs i h.1

-- If `extract_port` returns a command, it is PORT with a port above 1024 and below 65536.
pub extract_port_bounds :
    (bytes : Bytes) (c : Command)
    → extract_port bytes ≡ ok c
    → (p : ℕ) × (c ≡ port p) × (1024 < p) × (p < 65536)
unfolding extract_port
extract_port_bounds bytes c h =
    let addr = fields (split b',' bytes) in
    let high = get_or-le addr 4 (fields-le (split b',' bytes)) in
    let low = get_or-le addr 5 (fields-le (split b',' bytes)) in
    (get_or addr 4 0 * 256 + get_or addr 5 0, ground arith, ground arith, omega arith)

pub IsAscii-of_digits : (s : Bytes) → All IsDigit s → IsAscii s
IsAscii-of_digits [] h = tt
IsAscii-of_digits (c ∷ s) h = (omega arith, IsAscii-of_digits s h.1)

pub Lacks-of_digits : (b : ℕ) (s : Bytes) → b < b'0' → All IsDigit s → Lacks b s
Lacks-of_digits b [] lt h = tt
Lacks-of_digits b (c ∷ s) lt h = (omega arith, Lacks-of_digits b s lt h.1)

field-show : (n : ℕ) → n < 256 → field (show n) ≡ some n
unfolding field from_utf8
field-show n h =
    rw (is_utf8_of_ascii (show n) (IsAscii-of_digits (show n) (show-IsDigit n)))
      (parse_unsigned-show 255 n (omega arith))

-- An address and a port as the client writes them: `h1,h2,h3,h4,p1,p2`.
unfoldable pub address : (h1 h2 h3 h4 p1 p2 : ℕ) → Bytes
address h1 h2 h3 h4 p1 p2 =
    show h1
    ++ b','
      ∷ (show h2 ++ b',' ∷ (show h3 ++ b',' ∷ (show h4 ++ b',' ∷ (show p1 ++ b',' ∷ show p2))))

module _ (h1 h2 h3 h4 p1 p2 : ℕ) where
  lacks : (n : ℕ) → Lacks b',' (show n)
  lacks n = Lacks-of_digits b',' (show n) (omega arith) (show-IsDigit n)

  split-address :
      split b',' (address h1 h2 h3 h4 p1 p2)
      ≡ show h1 ∷ show h2 ∷ show h3 ∷ show h4 ∷ show p1 ∷ show p2 ∷ []
  unfolding address
  split-address = rw (
    split-append b',' (show h1) _ (lacks h1),
    split-append b',' (show h2) _ (lacks h2),
    split-append b',' (show h3) _ (lacks h3),
    split-append b',' (show h4) _ (lacks h4),
    split-append b',' (show p1) _ (lacks p1),
    split_whole b',' (show p2) (lacks p2),
  )

  fields-address :
      (h1 < 256) × (h2 < 256) × (h3 < 256) × (h4 < 256) × (p1 < 256) × (p2 < 256)
      → fields (split b',' (address h1 h2 h3 h4 p1 p2)) ≡ h1 ∷ h2 ∷ h3 ∷ h4 ∷ p1 ∷ p2 ∷ []
  unfolding fields
  fields-address (a, b, c, d, e, f) = rw (
    split-address,
    fields_number _ _ h1 (field-show h1 a),
    fields_number _ _ h2 (field-show h2 b),
    fields_number _ _ h3 (field-show h3 c),
    fields_number _ _ h4 (field-show h4 d),
    fields_number _ _ p1 (field-show p1 e),
    fields_number _ _ p2 (field-show p2 f),
  )

-- For four numbers of a host below 256 and a port above 1024 and below 65536, `extract_port` reads
-- the port back from the six decimal fields, whatever the host.
pub extract_port-address :
    (h1 h2 h3 h4 p : ℕ)
    → (h1 < 256) × (h2 < 256) × (h3 < 256) × (h4 < 256)
    → 1024 < p
    → p < 65536
    → extract_port (address h1 h2 h3 h4 (p / 256) (p % 256)) ≡ ok (port p)
unfolding extract_port
extract_port-address h1 h2 h3 h4 p (a, b, c, d) lo hi =
    rw (fields-address h1 h2 h3 h4 (p / 256) (p % 256) (a, b, c, d, omega arith, omega arith))
      (ground arith)

-- A printed address holds no space.
pub address-Lacks : (h1 h2 h3 h4 p1 p2 : ℕ) → Lacks b' ' (address h1 h2 h3 h4 p1 p2)
unfolding address
address-Lacks h1 h2 h3 h4 p1 p2 =
    join h1 _ (join h2 _ (join h3 _ (join h4 _ (join p1 _ (digits p2)))))
  where
    digits : (n : ℕ) → Lacks b' ' (show n)
    digits n = Lacks-of_digits b' ' (show n) (omega arith) (show-IsDigit n)

    join : (n : ℕ) (r : Bytes) → Lacks b' ' r → Lacks b' ' (show n ++ b',' ∷ r)
    join n r h = All-append _ (show n) (b',' ∷ r) (digits n) (omega arith, h)
