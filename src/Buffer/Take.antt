-- ===== src/Buffer/Take.antt =====
-- `get_line`, `get_crlf_line` and `read_buf` take bytes from the front of the queue.
use minifto.Common.{
  ℕ, ◌+◌, ◌≡◌, refl, ap, ◌∙◌, sym, none, some, [], ◌∷◌, ◌++◌, append_assoc, append-nil, arith,
  Bytes, length, length-append, replicate, length-replicate, length-take, take, subst, inl, inr,
  leb→le, not-leb→lt, Bool-cases, ◌-◌, returns, panics, leb, if◌then◌else◌, ◌≤◌,
}
use minifto.Text.Utf8.{is_utf8}
use minifto.Text.Split.{Lacks, LacksCrlf, find-append, find_whole, find_crlf-append}
use minifto.Buffer.{
  Buffer, default_init_size, isize_max, usize_add, resize, slice, region, new, reset, get_line,
  get_crlf_line, read_buf,
}
use minifto.Buffer.Queue.{IsQueue, length-IsQueue, slice-append}

-- A new buffer is the empty queue.
pub new-IsQueue : IsQueue new []
unfolding new
new-IsQueue = record {
  before = [];
  after = replicate default_init_size 0;
  whole = refl;
  at_read = refl;
  at_write = refl;
  small = omega (arith, length-replicate {A = ℕ} default_init_size 0);
}

resize_lem :
    (v : Bytes) (n : ℕ) → n ≤ isize_max → (v' : Bytes) × (resize v n ≡ returns v') × (length v' ≡ n)
unfolding resize
resize_lem v n h = elim (Bool-cases (leb n (length v))) [
  | inl t ↦ (take n v, ground arith, omega (arith, leb→le n (length v) t, length-take n v))
  | inr t ↦ (
    v ++ replicate (n - length v) 0,
    ground arith,
    omega (
      arith,
      not-leb→lt n (length v) t,
      length-append v (replicate (n - length v) 0),
      length-replicate {A = ℕ} (n - length v) 0,
    ),
  )
]

-- `reset` returns for every buffer, with an empty queue in a vector of the initial size.
pub reset_lem :
    (b : Buffer)
    → (b' : Buffer) × (reset b ≡ returns b') × IsQueue b' [] × (length b'.bytes ≡ default_init_size)
unfolding reset
reset_lem b =
    let (v, e, len) = resize_lem b.bytes default_init_size (omega arith) in
    (
      record { bytes = v; read_index = 0; write_index = 0 },
      rw e,
      record {
        before = [];
        after = v;
        whole = refl;
        at_read = refl;
        at_write = refl;
        small = omega arith;
      },
      len,
    )

-- The buffer behind the first `n` readable bytes.
abbrev advance : Buffer → ℕ → Buffer
advance b n = record b { read_index = usize_add b.read_index n }

module _ (b : Buffer) (c : Bytes) (q : IsQueue b c) where
  region_lem : region b ≡ returns c
  region_lem =
      ap (λ v. slice v b.read_index b.write_index) q.whole
      ∙ slice-append q.before c q.after _ _ q.at_read q.at_write

module _ (b : Buffer) (l r : Bytes) (q : IsQueue b (l ++ r)) where
  parts : q.before ++ ((l ++ r) ++ q.after) ≡ q.before ++ (l ++ (r ++ q.after))
  parts = ap (◌++◌ q.before) (append_assoc l r q.after)

  -- The first part of the queue is the slice at the read index.
  front : (to : ℕ) → to ≡ b.read_index + length l → slice b.bytes b.read_index to ≡ returns l
  front to e =
      ap (λ v. slice v b.read_index to) (q.whole ∙ parts)
      ∙ slice-append q.before l (r ++ q.after) _ _ q.at_read (omega (arith, q.at_read))

  advance-IsQueue : IsQueue (advance b (length l)) r
  advance-IsQueue = record {
    before = q.before ++ l;
    after = q.after;
    whole = q.whole ∙ parts ∙ sym (append_assoc q.before l (r ++ q.after));
    at_read = omega (
      arith,
      q.at_read,
      length-append q.before l,
      length-IsQueue b (l ++ r) q,
      length-append l r,
      q.small,
    );
    at_write = omega (arith, q.at_write, length-append q.before l, length-append l r);
    small = q.small;
  }

-- On a buffer that holds the queue `c`, `read_buf` returns `c`, and the buffer then holds nothing.
pub read_buf_lem :
    (b : Buffer) (c : Bytes)
    → IsQueue b c
    → (b' : Buffer) × (read_buf b ≡ returns (b', c)) × IsQueue b' []
unfolding read_buf
read_buf_lem b c q = (
  advance b (length c),
  rw (region_lem b c q),
  advance-IsQueue b c [] (subst (IsQueue b) (sym (append-nil c)) q),
)

-- Without a line end in the queue nothing is taken.
pub get_crlf_line-none :
    (b : Buffer) (c : Bytes) → IsQueue b c → LacksCrlf c → get_crlf_line b ≡ returns (b, none)
unfolding get_crlf_line
get_crlf_line-none b c q h = ground (arith, region_lem b c q)

-- If a buffer holds a line without a line end in it, a line end and a rest, `get_crlf_line`
-- returns the line with its line end, and the buffer then holds the rest.
pub get_crlf_line_lem :
    (b : Buffer) (l r : Bytes)
    → IsQueue b (l ++ b'\r' ∷ b'\n' ∷ r)
    → LacksCrlf l
    → (b' : Buffer) × (get_crlf_line b ≡ returns (b', some (l ++ b'\r' ∷ b'\n' ∷ [])))
      × IsQueue b' r
unfolding get_crlf_line
get_crlf_line_lem b l r q h =
    let line : Bytes = l ++ b'\r' ∷ b'\n' ∷ [] in
    let q' : IsQueue b (line ++ r) = subst (IsQueue b) (sym (append_assoc l _ r)) q in
    (
      advance b (length line),
      ground (
        arith,
        region_lem b (l ++ b'\r' ∷ b'\n' ∷ r) q,
        find_crlf-append l r h,
        front b line r q' (b.read_index + length l + 2)
            (omega (arith, length-append l (b'\r' ∷ b'\n' ∷ []))),
      ),
      advance-IsQueue b line r q',
    )

-- Without `\n` in the queue nothing is taken.
pub get_line-none :
    (b : Buffer) (c : Bytes) → IsQueue b c → Lacks b'\n' c → get_line b ≡ returns (b, none)
unfolding get_line
get_line-none b c q h = ground (arith, region_lem b c q, find_whole b'\n' c h)

-- If a buffer holds a line without `\n`, a `\n` and a rest, `get_line` returns the line with its
-- `\n` where that is UTF-8 and panics where it is not; a buffer that holds the rest exists, and is
-- the one returned.
pub get_line_lem :
    (b : Buffer) (l r : Bytes)
    → IsQueue b (l ++ b'\n' ∷ r)
    → Lacks b'\n' l
    → (b' : Buffer) × (get_line b
        ≡ (if is_utf8 (l ++ b'\n' ∷ []) then returns (b', some (l ++ b'\n' ∷ [])) else panics))
      × IsQueue b' r
unfolding get_line
get_line_lem b l r q h =
    let line : Bytes = l ++ b'\n' ∷ [] in
    let q' : IsQueue b (line ++ r) = subst (IsQueue b) (sym (append_assoc l _ r)) q in
    (
      advance b (length line),
      ground (
        arith,
        region_lem b (l ++ b'\n' ∷ r) q,
        find-append b'\n' l r h,
        front b line r q' (b.read_index + length l + 1)
            (omega (arith, length-append l (b'\n' ∷ []))),
      ),
      advance-IsQueue b line r q',
    )
