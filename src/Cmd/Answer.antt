-- ===== src/Cmd/Answer.antt =====
-- handler/cmd.rs: `Answer`, its display, and the client's reading of an answer line.
use minifto.Common.{
  ℕ, Option, none, some, [], ◌∷◌, ◌++◌, ltb, if◌then◌else◌, Bytes, codes, take, drop, Fallible,
  returns, ◌>>=◌, unwrap, ◌^◌, ◌-◌, List, Bool, true, false,
}
use minifto.Common.Int.{ℤ}
use minifto.Text.Split.{find}
use minifto.Text.Decimal.{show, parse_signed}
use minifto.Cmd.Code.{ResultCode, number}

pub record Answer : Type 0 where
  pub code : ResultCode
  pub message : Bytes

unfoldable pub new : ResultCode → Bytes → Answer
new code message = record { code = code; message = message }

abbrev pub is_empty {ℓ} : {A : Type ℓ} → List A → Bool
is_empty [] = true
is_empty (x ∷ xs) = false

-- `Display`: the escaped line end `\\r\\n` prints as four characters.
unfoldable pub display : Answer → Bytes
display a =
    if is_empty a.message
    then show (number a.code) ++ codes " \\r\\n"
    else show (number a.code) ++ b' ' ∷ (a.message ++ codes " \\r\\n")

abbrev pub i32_max : ℕ
i32_max = 2 ^ 31 - 1

-- `ResultCode::from_i32` is derived by a crate, so it is a parameter.
module _ (from_i32 : ℤ → Option ResultCode) where
  unfoldable pub from : Bytes → Fallible (Option Answer)
  unfolding new
  from buf = elim (find b' ' buf) [
    | none ↦ returns none
    | some index ↦
        if ltb index 7
        then (do
          value ← unwrap (parse_signed i32_max (take index buf))
          code ← unwrap (from_i32 value)
          returns (some (new code (drop 1 (drop index buf)))))
        else returns none
  ]
