-- ===== src/Cmd/Parse.antt =====
-- handler/cmd.rs: `Command::new`, the parser of a command line.
pub mod Words
pub mod RoundTrip
pub mod Reach
use minifto.Common.{
  List, [], ◌∷◌, Option, none, some, map, Bytes, codes, Result, ok, err, ok_or, Fallible, returns,
  panics, ◌>>=◌, unwrap,
}
use minifto.Text.Utf8.{from_utf8_lossy, to_ascii_uppercase, from_utf8}
use minifto.Text.Split.{split}
use minifto.Cmd.Error.{Error, msg}
use minifto.Cmd.Command.{Command, TransferType, transfer_type_from}
use minifto.Cmd.Keyword.{Keyword, keyword}
use minifto.Cmd.Port.{extract_port}
use mathlib.Core.Option

-- A parse returns a command or an error, or it panics.
abbrev pub Parsed : Type 0
Parsed = Fallible (Result Error Command)

-- An arm that takes `String::from_utf8_lossy(data?)`.
abbrev with_data : Result Error Bytes → (Bytes → Command) → Parsed
with_data (ok data') f = returns (ok (f (from_utf8_lossy data')))
with_data (err e) f = returns (err e)

-- `extract_port(data?).unwrap()`
abbrev port_of : Result Error Bytes → Parsed
port_of (err e) = returns (err e)
port_of (ok bytes) = elim (extract_port bytes) [ ok c ↦ returns (ok c) | err e ↦ panics ]

abbrev type_error : Parsed
type_error = returns (err (msg (codes "command not implemented for that parameter")))

abbrev type_of_first : TransferType → Parsed
type_of_first TransferType.unknown = type_error
type_of_first t = returns (ok (Command.type t))

-- The arm of TYPE.
abbrev type_of : Result Error Bytes → Parsed
type_of (err e) = returns (err e)
type_of (ok []) = type_error
type_of (ok (c ∷ bytes)) = type_of_first (transfer_type_from c)

-- LIST and NLST stand for the current directory without a parameter.
abbrev path_or_dot : Result Error Bytes → Option Bytes
path_or_dot (ok bytes) = some (from_utf8_lossy bytes)
path_or_dot (err e) = some (codes ".")

-- The arms of the match; `rest` is what the iterator still has behind `data`.
unfoldable pub arm : Keyword → Bytes → Result Error Bytes → List Bytes → Parsed
arm Keyword.acct word d rest = returns (ok Command.acct)
arm Keyword.pasv word d rest = returns (ok Command.pasv)
arm Keyword.pwd word d rest = returns (ok Command.pwd)
arm Keyword.quit word d rest = returns (ok Command.quit)
arm Keyword.abort word d rest = returns (ok Command.abort)
arm Keyword.syst word d rest = returns (ok Command.syst)
arm Keyword.cd_up word d rest = returns (ok Command.cd_up)
arm Keyword.no_op word d rest = returns (ok Command.no_op)
arm Keyword.rest word d rest = with_data d Command.rest
arm Keyword.cwd word d rest = with_data d Command.cwd
arm Keyword.size word d rest = with_data d Command.size
arm Keyword.pass word d rest = with_data d Command.pass
arm Keyword.retr word d rest = with_data d Command.retr
arm Keyword.rnfr word d rest = with_data d Command.rnfr
arm Keyword.rnto word d rest = with_data d Command.rnto
arm Keyword.stor word d rest = with_data d Command.stor
arm Keyword.site word d rest = returns (ok (Command.site (map from_utf8_lossy rest)))
arm Keyword.stat word d rest = with_data d Command.stat
arm Keyword.list word d rest = returns (ok (Command.list (path_or_dot d)))
arm Keyword.n_lst word d rest = returns (ok (Command.n_lst (path_or_dot d)))
arm Keyword.port word d rest = port_of d
arm Keyword.type word d rest = type_of d
arm Keyword.user word d rest = with_data d Command.user
arm Keyword.help word d rest = with_data d Command.help
arm Keyword.mkd word d rest = with_data d Command.mkd
arm Keyword.rmd word d rest = with_data d Command.rmd
arm Keyword.dele word d rest = with_data d Command.delete
arm Keyword.other word d rest = returns (ok (Command.unknown (Option.get_or (from_utf8 word) [])))

-- The first item of an iterator, and what is left.
abbrev next : List Bytes → Option Bytes × List Bytes
next [] = (none, [])
next (p ∷ pieces) = (some p, pieces)

abbrev no_parameter : Error
no_parameter = msg (codes "no command parameter")

-- The words of the line: the first is the keyword, and `unwrap` panics if there is none.
unfoldable pub parse_words : List Bytes → Parsed
unfolding arm
parse_words [] = panics
parse_words (command ∷ pieces) =
    let word : Bytes = to_ascii_uppercase (from_utf8_lossy command) in
    let (second, rest) = next pieces in arm (keyword word) word (ok_or second no_parameter) rest

-- `Command::new`
unfoldable pub parse : Bytes → Parsed
unfolding parse_words
parse input = parse_words (split b' ' input)
