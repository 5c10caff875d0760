-- ===== src/Cmd/Parse/Words.antt =====
-- How `Command::new` sees the words of a line, and that the case of the keyword does not matter.
use minifto.Common.{
  ℕ, ◌<◌, ◌≡◌, ◌≢◌, refl, List, [], ◌∷◌, ◌++◌, arith, Bytes, ok_or, ok, err, returns,
}
use minifto.Text.Utf8.{
  to_upper, to_ascii_uppercase, from_utf8_lossy, from_utf8_lossy-is_utf8, is_utf8_of_ascii, IsAscii,
}
use minifto.Text.Split.{split, Lacks, split-append, split_whole}
use minifto.Cmd.Command.{Command}
use minifto.Cmd.Port.{extract_port}
use minifto.Cmd.Keyword.{Keyword, keyword}
use minifto.Cmd.Parse.{arm, next, no_parameter, parse}

-- The keyword as `Command::new` compares it.
abbrev pub upper : Bytes → Bytes
upper w = to_ascii_uppercase (from_utf8_lossy w)

-- A word and what follows the first space.
pub parse-append :
    (w r : Bytes)
    → Lacks b' ' w
    → parse (w ++ b' ' ∷ r)
      ≡ arm
          (keyword (upper w))
          (upper w)
          (ok_or (next (split b' ' r)).0 no_parameter)
          (next (split b' ' r)).1
unfolding parse
parse-append w r h = rw (split-append b' ' w r h)

-- A word alone.
pub parse_whole :
    (w : Bytes) → Lacks b' ' w → parse w ≡ arm (keyword (upper w)) (upper w) (err no_parameter) []
unfolding parse
parse_whole w h = rw (split_whole b' ' w h)

-- Two words.
pub parse_pair :
    (w a : Bytes)
    → Lacks b' ' w
    → Lacks b' ' a
    → parse (w ++ b' ' ∷ a) ≡ arm (keyword (upper w)) (upper w) (ok a) []
parse_pair w a h k = rw (parse-append w a h, split_whole b' ' a k)

to_upper_idem : (c : ℕ) → to_upper (to_upper c) ≡ to_upper c
unfolding to_upper
to_upper_idem c = ground arith

to_upper-lt : (c : ℕ) → c < 128 → to_upper c < 128
unfolding to_upper
to_upper-lt c h = ground arith

to_upper-ne_space : (c : ℕ) → c ≢ b' ' → to_upper c ≢ b' '
unfolding to_upper
to_upper-ne_space c h = ground arith

to_ascii_uppercase_idem :
    (w : Bytes) → to_ascii_uppercase (to_ascii_uppercase w) ≡ to_ascii_uppercase w
unfolding to_ascii_uppercase
to_ascii_uppercase_idem [] = refl
to_ascii_uppercase_idem (c ∷ w) = cc (to_upper_idem c, to_ascii_uppercase_idem w)

to_ascii_uppercase-IsAscii : (w : Bytes) → IsAscii w → IsAscii (to_ascii_uppercase w)
unfolding to_ascii_uppercase
to_ascii_uppercase-IsAscii [] h = tt
to_ascii_uppercase-IsAscii (c ∷ w) h = (to_upper-lt c h.0, to_ascii_uppercase-IsAscii w h.1)

to_ascii_uppercase-Lacks : (w : Bytes) → Lacks b' ' w → Lacks b' ' (to_ascii_uppercase w)
unfolding to_ascii_uppercase
to_ascii_uppercase-Lacks [] h = tt
to_ascii_uppercase-Lacks (c ∷ w) h = (to_upper-ne_space c h.0, to_ascii_uppercase-Lacks w h.1)

lossy_of_ascii : (w : Bytes) → IsAscii w → from_utf8_lossy w ≡ w
lossy_of_ascii w h = from_utf8_lossy-is_utf8 w (is_utf8_of_ascii w h)

upper-to_ascii_uppercase : (w : Bytes) → IsAscii w → upper (to_ascii_uppercase w) ≡ upper w
upper-to_ascii_uppercase w h = rw (
  lossy_of_ascii w h,
  lossy_of_ascii (to_ascii_uppercase w) (to_ascii_uppercase-IsAscii w h),
  to_ascii_uppercase_idem,
)

-- For an ASCII keyword without a space, a line parses alike whether the keyword is written in
-- upper case or not, whatever follows it.
pub parse-to_ascii_uppercase :
    (w r : Bytes)
    → IsAscii w
    → Lacks b' ' w
    → parse (to_ascii_uppercase w ++ b' ' ∷ r) ≡ parse (w ++ b' ' ∷ r)
parse-to_ascii_uppercase w r h k = rw (
  parse-append w r k,
  parse-append (to_ascii_uppercase w) r (to_ascii_uppercase-Lacks w k),
  upper-to_ascii_uppercase w h,
)

-- The arm of PORT, for an argument that `extract_port` accepts.
pub arm-port :
    (word a : Bytes) (rest : List Bytes) (c : Command)
    → extract_port a ≡ ok c
    → arm Keyword.port word (ok a) rest ≡ returns (ok c)
unfolding arm
arm-port word a rest c e = ground arith
