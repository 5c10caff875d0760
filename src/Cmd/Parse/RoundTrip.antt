-- ===== src/Cmd/Parse/RoundTrip.antt =====
-- The wire form of the commands, which `Command::new` reads back.
use minifto.Common.{
  ◌/◌, ◌%◌, ◌<◌, ◌≡◌, ◌≢◌, refl, ap, ◌∙◌, true, [], ◌∷◌, ◌++◌, Option, none, some, arith, Bytes,
  codes, ok, returns, ◌=?◌,
}
use minifto.Text.Utf8.{from_utf8_lossy, to_ascii_uppercase, is_utf8, from_utf8_lossy-is_utf8}
use minifto.Text.Split.{Lacks}
use minifto.Cmd.Command.{Command, TransferType, transfer_type_from, as_ref}
use minifto.Cmd.Keyword.{keyword}
use minifto.Cmd.Port.Laws.{address, extract_port-address, address-Lacks}
use minifto.Cmd.Parse.{Parsed, arm, parse}
use minifto.Cmd.Parse.Words.{upper, parse_whole, parse_pair, arm-port}

-- What stands behind the keyword on the line.
unfoldable pub argument : Command → Option Bytes
argument (Command.cwd p) = some p
argument (Command.user s) = some s
argument (Command.pass s) = some s
argument (Command.port p) = some (address 127 0 0 1 (p / 256) (p % 256))
argument (Command.type TransferType.ascii) = some (codes "A")
argument (Command.type TransferType.binary) = some (codes "I")
argument (Command.list p) = p
argument (Command.n_lst p) = p
argument (Command.stat p) = some p
argument (Command.size p) = some p
argument (Command.help s) = some s
argument (Command.retr p) = some p
argument (Command.stor p) = some p
argument (Command.mkd p) = some p
argument (Command.rmd p) = some p
argument (Command.delete p) = some p
argument (Command.rnfr p) = some p
argument (Command.rnto p) = some p
argument (Command.rest s) = some s
argument _ = none

abbrev pub line_of : Bytes → Option Bytes → Bytes
line_of w none = w
line_of w (some a) = w ++ b' ' ∷ a

-- The line that stands for a command.
unfoldable pub print : Command → Bytes
unfolding argument
print c = line_of (as_ref c) (argument c)

-- A text that is one word of valid UTF-8.
abbrev pub IsWord : Bytes → Type 0
IsWord s = (is_utf8 s ≡ true) × Lacks b' ' s

-- A command that has a line: its texts are words and its port is unprivileged. ACCT, UNKN and
-- SITE have none.
abbrev pub IsPrintable : Command → Type 0
IsPrintable (Command.cwd p) = IsWord p
IsPrintable (Command.user s) = IsWord s
IsPrintable (Command.pass s) = IsWord s
IsPrintable (Command.port p) = (1024 < p) × (p < 65536)
IsPrintable (Command.type t) = t ≢ TransferType.unknown
IsPrintable (Command.list none) = ⊥
IsPrintable (Command.list (some p)) = IsWord p
IsPrintable (Command.n_lst none) = ⊥
IsPrintable (Command.n_lst (some p)) = IsWord p
IsPrintable (Command.stat p) = IsWord p
IsPrintable (Command.size p) = IsWord p
IsPrintable (Command.help s) = IsWord s
IsPrintable (Command.retr p) = IsWord p
IsPrintable (Command.stor p) = IsWord p
IsPrintable (Command.mkd p) = IsWord p
IsPrintable (Command.rmd p) = IsWord p
IsPrintable (Command.delete p) = IsWord p
IsPrintable (Command.rnfr p) = IsWord p
IsPrintable (Command.rnto p) = IsWord p
IsPrintable (Command.rest s) = IsWord s
IsPrintable Command.acct = ⊥
IsPrintable (Command.unknown s) = ⊥
IsPrintable (Command.site l) = ⊥
IsPrintable _ = Unit

pair :
    (w a : Bytes) {r : Parsed}
    → Lacks b' ' w
    → Lacks b' ' a
    → arm (keyword (upper w)) (upper w) (ok a) [] ≡ r
    → parse (w ++ b' ' ∷ a) ≡ r
pair w a h k e = parse_pair w a h k ∙ e

-- A keyword whose arm takes the lossy text.
text :
    (w : Bytes) (f : Bytes → Command) (a : Bytes)
    → Lacks b' ' w
    → IsWord a
    → arm (keyword (upper w)) (upper w) (ok a) [] ≡ returns (ok (f (from_utf8_lossy a)))
    → parse (w ++ b' ' ∷ a) ≡ returns (ok (f a))
text w f a h k e = pair w a h k.1 (e ∙ ap (λ b. returns (ok (f b))) (from_utf8_lossy-is_utf8 a k.0))

calls : Unit {0}
unfolding as_ref keyword to_ascii_uppercase from_utf8_lossy arm ◌=?◌ transfer_type_from
calls = tt

-- A command that has a line and whose arguments are UTF-8 words, with the port of PORT
-- unprivileged and in 16 bits, is read back by `Command::new` from its printed line.
pub parse-print : (c : Command) → IsPrintable c → parse (print c) ≡ returns (ok c)
unfolding print calls
parse-print (Command.cwd s) h = text (codes "CWD") Command.cwd s (omega arith) h refl
parse-print (Command.user s) h = text (codes "USER") Command.user s (omega arith) h refl
parse-print (Command.pass s) h = text (codes "PASS") Command.pass s (omega arith) h refl
parse-print (Command.stat s) h = text (codes "STAT") Command.stat s (omega arith) h refl
parse-print (Command.size s) h = text (codes "SIZE") Command.size s (omega arith) h refl
parse-print (Command.help s) h = text (codes "HELP") Command.help s (omega arith) h refl
parse-print (Command.retr s) h = text (codes "RETR") Command.retr s (omega arith) h refl
parse-print (Command.stor s) h = text (codes "STOR") Command.stor s (omega arith) h refl
parse-print (Command.mkd s) h = text (codes "MKD") Command.mkd s (omega arith) h refl
parse-print (Command.rmd s) h = text (codes "RMD") Command.rmd s (omega arith) h refl
parse-print (Command.delete s) h = text (codes "DELE") Command.delete s (omega arith) h refl
parse-print (Command.rnfr s) h = text (codes "RNFR") Command.rnfr s (omega arith) h refl
parse-print (Command.rnto s) h = text (codes "RNTO") Command.rnto s (omega arith) h refl
parse-print (Command.rest s) h = text (codes "REST") Command.rest s (omega arith) h refl
parse-print Command.cd_up h = parse_whole (codes "CDUP") (omega arith)
parse-print Command.quit h = parse_whole (codes "QUIT") (omega arith)
parse-print Command.pasv h = parse_whole (codes "PASV") (omega arith)
parse-print Command.pwd h = parse_whole (codes "PWD") (omega arith)
parse-print Command.syst h = parse_whole (codes "SYST") (omega arith)
parse-print Command.no_op h = parse_whole (codes "NOOP") (omega arith)
parse-print Command.abort h = parse_whole (codes "ABORT") (omega arith)
parse-print (Command.list (some p)) h =
    text (codes "LIST") (λ s. Command.list (some s)) p (omega arith) h refl
parse-print (Command.list none) h = absurd h
parse-print (Command.n_lst (some p)) h =
    text (codes "NLST") (λ s. Command.n_lst (some s)) p (omega arith) h refl
parse-print (Command.n_lst none) h = absurd h
parse-print (Command.port p) (lo, hi) =
    pair (codes "PORT") (address 127 0 0 1 (p / 256) (p % 256)) (omega arith)
      (address-Lacks 127 0 0 1 (p / 256) (p % 256))
      (arm-port (codes "PORT") (address 127 0 0 1 (p / 256) (p % 256)) [] (Command.port p)
        (extract_port-address 127 0 0 1 p (omega arith) lo hi))
parse-print (Command.type TransferType.ascii) h =
    pair (codes "TYPE") (codes "A") (omega arith) (omega arith) refl
parse-print (Command.type TransferType.binary) h =
    pair (codes "TYPE") (codes "I") (omega arith) (omega arith) refl
parse-print (Command.type TransferType.unknown) h = absurd (h refl)
parse-print Command.acct h = absurd h
parse-print (Command.unknown s) h = absurd h
parse-print (Command.site l) h = absurd h
