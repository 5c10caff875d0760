-- ===== src/Cmd/Parse/Reach.antt =====
-- Which results `Command::new` can have: where it panics, and a command that it never returns.
use minifto.Common.{
  ◌≡◌, ◌≢◌, refl, [], ◌∷◌, ◌++◌, List, arith, Bytes, Result, ok, err, returns, panics, ◌↔◌,
}
use minifto.Text.Utf8.{from_utf8_lossy}
use minifto.Text.Split.{split, Lacks}
use minifto.Cmd.Error.{Error}
use minifto.Cmd.Command.{Command}
use minifto.Cmd.Keyword.{Keyword, keyword}
use minifto.Cmd.Keyword.Laws.{keyword-ne_acct}
use minifto.Cmd.Port.{extract_port}
use minifto.Cmd.Port.Laws.{extract_port_bounds}
use minifto.Cmd.Parse.{arm, parse_words, parse}
use minifto.Cmd.Parse.Words.{upper, parse_pair}

arm-ne_acct :
    (k : Keyword) (word : Bytes) (d : Result Error Bytes) (rest : List Bytes)
    → k ≢ Keyword.acct
    → arm k word d rest ≢ returns (ok Command.acct)
unfolding arm
arm-ne_acct Keyword.acct word d rest ne = absurd (ne refl)
arm-ne_acct Keyword.port word (ok a) rest ne = ground (arith, extract_port_bounds a Command.acct)
arm-ne_acct Keyword.port word (err e) rest ne = cc
arm-ne_acct Keyword.type word (ok []) rest ne = cc
arm-ne_acct Keyword.type word (ok (c ∷ s)) rest ne = ground arith
arm-ne_acct _ word d rest ne = ground arith

parse_words-ne_acct : (pieces : List Bytes) → parse_words pieces ≢ returns (ok Command.acct)
unfolding parse_words
parse_words-ne_acct [] = cc
parse_words-ne_acct (w ∷ pieces) = arm-ne_acct _ _ _ _ (keyword-ne_acct (from_utf8_lossy w))

-- No line parses to the command ACCT.
pub parse-ne_acct : (s : Bytes) → parse s ≢ returns (ok Command.acct)
unfolding parse
parse-ne_acct s = parse_words-ne_acct (split b' ' s)

abbrev pub PortRefused : Keyword → Bytes → Type 0
PortRefused k a = (k ≡ Keyword.port) × ((e : Error) × (extract_port a ≡ err e))

arm-panics :
    (k : Keyword) (word a : Bytes) (rest : List Bytes)
    → arm k word (ok a) rest ≡ panics
    → PortRefused k a
unfolding arm
arm-panics Keyword.port word a rest h = (refl, ground arith)
arm-panics Keyword.type word [] rest h = cc
arm-panics Keyword.type word (c ∷ a) rest h = absurd (ground arith)
arm-panics _ word a rest h = absurd (cc)

panics-arm :
    (k : Keyword) (word a : Bytes) (rest : List Bytes)
    → PortRefused k a
    → arm k word (ok a) rest ≡ panics
unfolding arm
panics-arm k word a rest (p, (e, q)) = rw p (ground arith)

-- A line of two words, without a space in either, panics in `Command::new` exactly if its keyword
-- is PORT, in upper case or not, and `extract_port` refuses the argument.
pub parse-panics_iff :
    (w a : Bytes)
    → Lacks b' ' w
    → Lacks b' ' a
    → (parse (w ++ b' ' ∷ a) ≡ panics) ↔ PortRefused (keyword (upper w)) a
parse-panics_iff w a h k =
    rw (parse_pair w a h k)
      (arm-panics (keyword (upper w)) (upper w) a [], panics-arm (keyword (upper w)) (upper w) a [])
