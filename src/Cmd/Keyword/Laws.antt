-- ===== src/Cmd/Keyword/Laws.antt =====
-- What an arm's keyword says of the word that was matched.
use minifto.Common.{
  ℕ, ◌≢◌, inl, inr, List, [], ◌∷◌, arith, Bytes, codes, Bool-cases, ◌=?◌, =?→eq, All,
}
use mathlib.Core.List.{tail}
use minifto.Text.Utf8.{to_upper, to_ascii_uppercase}
use minifto.Cmd.Keyword.{Keyword, table, first_match, keyword}

to_upper-ne_c : (b : ℕ) → to_upper b ≢ b'c'
unfolding to_upper
to_upper-ne_c b = ground arith

to_ascii_uppercase-ne_acct : (w : Bytes) → to_ascii_uppercase w ≢ codes "Acct"
unfolding to_ascii_uppercase
to_ascii_uppercase-ne_acct [] e = cc
to_ascii_uppercase-ne_acct (a ∷ []) e = cc
to_ascii_uppercase-ne_acct (a ∷ b ∷ w) e = to_upper-ne_c b (cc)

first_match-ne :
    (k : Keyword) (m : List (Bytes × Keyword)) (s : Bytes)
    → Keyword.other ≢ k
    → All (λ e. e.1 ≢ k) m
    → first_match m s ≢ k
unfolding first_match
first_match-ne k [] s ne h = ne
first_match-ne k ((w, v) ∷ m) s ne h = elim (Bool-cases (s =? w)) [
  | inl e ↦ rw e h.0
  | inr e ↦ rw e (first_match-ne k m s ne h.1)
]

-- The literal of the first arm has lower-case letters, so no upper-cased word reaches that arm.
pub keyword-ne_acct : (w : Bytes) → keyword (to_ascii_uppercase w) ≢ Keyword.acct
unfolding keyword
keyword-ne_acct w = elim (Bool-cases (to_ascii_uppercase w =? codes "Acct")) [
  | inl e ↦ absurd (to_ascii_uppercase-ne_acct w (=?→eq _ _ e))
  | inr e ↦
      rw e (first_match-ne Keyword.acct (tail table) (to_ascii_uppercase w) (cc) (ground arith))
]
