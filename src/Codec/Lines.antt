-- ===== src/Codec/Lines.antt =====
-- Lines that begin with digits: no line end begins among them, and they are ASCII.
use minifto.Common.{◌≡◌, refl, [], ◌∷◌, ◌++◌, arith, Bytes, length}
use minifto.Text.Split.{Lacks, LacksCrlf, find_crlf}
use minifto.Text.Decimal.{show}
use minifto.Cmd.Code.{ResultCode, number}

pub LacksCrlf-append : (w m : Bytes) → Lacks b'\r' w → LacksCrlf m → LacksCrlf (w ++ m)
unfolding find_crlf
LacksCrlf-append [] m h k = k
LacksCrlf-append (c ∷ []) [] h k = refl
LacksCrlf-append (c ∷ []) (d ∷ m) h k = ground arith
LacksCrlf-append (c ∷ d ∷ w) m h k = ground (arith, LacksCrlf-append (d ∷ w) m h.1 k)

-- Every code is printed in three digits.
pub length-show-number : (c : ResultCode) → length (show (number c)) ≡ 3
unfolding show number
length-show-number ResultCode.series = refl
length-show-number _ = refl
