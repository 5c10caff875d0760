-- ===== src/Cmd/Examples.antt =====
-- Runs of the command parser, and the theorems about it at concrete lines.
use minifto.Common.{
  ℕ, ◌/◌, ◌%◌, ◌<◌, ◌≡◌, refl, ◌↔◌, some, [], ◌∷◌, ◌++◌, arith, codes, ok, returns, panics, ◌=?◌,
}
use minifto.Text.Utf8.{to_ascii_uppercase, from_utf8_lossy, from_utf8, is_utf8_of_ascii}
use minifto.Text.Split.{split}
use minifto.Text.Decimal.{show, parse_unsigned}
use minifto.Cmd.Command.{Command, TransferType, port, as_ref, transfer_type_from}
use minifto.Cmd.Keyword.{keyword}
use minifto.Cmd.Port.{field, fields, extract_port}
use minifto.Cmd.Port.Laws.{address, extract_port_bounds, extract_port-address}
use minifto.Cmd.Parse.{arm, parse}
use minifto.Cmd.Parse.Words.{upper, parse-to_ascii_uppercase}
use minifto.Cmd.Parse.RoundTrip.{print, parse-print}
use minifto.Cmd.Parse.Reach.{PortRefused, parse-panics_iff}

program : Unit {0}
unfolding to_ascii_uppercase from_utf8_lossy from_utf8 split show parse_unsigned as_ref
    transfer_type_from keyword field fields extract_port arm parse ◌=?◌ address print
program = tt

lower_case_type : parse (codes "type I") ≡ returns (ok (Command.type TransferType.binary))
unfolding program
lower_case_type = refl

list_alone : parse (codes "LIST") ≡ returns (ok (Command.list (some (codes "."))))
unfolding program
list_alone = refl

-- The first argument of SITE is not among its contents.
site_loses_a_word : parse (codes "SITE umask 022") ≡ returns (ok (Command.site (codes "022" ∷ [])))
unfolding program
site_loses_a_word = refl

acct_is_unknown : parse (codes "ACCT") ≡ returns (ok (Command.unknown (codes "ACCT")))
unfolding program
acct_is_unknown = refl

-- A field of PORT that is no byte is passed over.
port_passes_over_junk : parse (codes "PORT x,127,0,0,1,8,1") ≡ returns (ok (Command.port 2049))
unfolding program
port_passes_over_junk = refl

low_port_panics : parse (codes "PORT 127,0,0,1,0,21") ≡ panics
unfolding program
low_port_panics = refl

parse-print_example :
    parse (print (Command.retr (codes "a.txt"))) ≡ returns (ok (Command.retr (codes "a.txt")))
parse-print_example =
    parse-print (Command.retr (codes "a.txt")) (is_utf8_of_ascii _ (omega arith), omega arith)

parse-to_ascii_uppercase_example :
    parse (to_ascii_uppercase (codes "user") ++ b' ' ∷ codes "bob") ≡ parse (codes "user bob")
parse-to_ascii_uppercase_example =
    parse-to_ascii_uppercase (codes "user") (codes "bob") (omega arith) (omega arith)

parse-panics_iff_example :
    (parse (codes "PORT 1,2") ≡ panics) ↔ PortRefused (keyword (upper (codes "PORT"))) (codes "1,2")
parse-panics_iff_example = parse-panics_iff (codes "PORT") (codes "1,2") (omega arith) (omega arith)

extract_port_bounds_example : (p : ℕ) × (port 2049 ≡ port p) × (1024 < p) × (p < 65536)
unfolding program
extract_port_bounds_example = extract_port_bounds (codes "127,0,0,1,8,1") (port 2049) refl

extract_port-address_example :
    extract_port (address 192 168 1 7 (8089 / 256) (8089 % 256)) ≡ ok (port 8089)
extract_port-address_example =
    extract_port-address 192 168 1 7 8089 (omega arith) (omega arith) (omega arith)
