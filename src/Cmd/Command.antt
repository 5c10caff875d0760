-- ===== src/Cmd/Command.antt =====
-- handler/cmd.rs: `Command`, `TransferType` and their names.
use minifto.Common.{ℕ, Option, List, ◌==◌, if◌then◌else◌, Bytes, codes}

pub data TransferType : Type 0 where
  ascii binary unknown : TransferType

-- `impl From<u8> for TransferType`
unfoldable pub transfer_type_from : ℕ → TransferType
transfer_type_from c = if c == b'A' then ascii else if c == b'I' then binary else unknown

-- `impl Display for TransferType`
unfoldable pub display : TransferType → Bytes
display ascii = codes "ASCII"
display binary = codes "BINARY"
display unknown = codes "UNKNOWN"

-- A `PathBuf` and a `String` are texts; a port is a `u16`.
pub data Command : Type 0 where
  cwd user pass : Bytes → Command
  cd_up quit : Command
  port : ℕ → Command
  type : TransferType → Command
  pasv : Command
  list n_lst : Option Bytes → Command
  stat size help : Bytes → Command
  pwd syst acct no_op : Command
  retr stor mkd rmd delete rnfr rnto : Bytes → Command
  site : List Bytes → Command
  rest : Bytes → Command
  abort : Command
  unknown : Bytes → Command

-- `impl AsRef<str> for Command`
unfoldable pub as_ref : Command → Bytes
as_ref acct = codes "ACCT"
as_ref (cwd _) = codes "CWD"
as_ref (size _) = codes "SIZE"
as_ref (pass _) = codes "PASS"
as_ref (list _) = codes "LIST"
as_ref (n_lst _) = codes "NLST"
as_ref (mkd _) = codes "MKD"
as_ref no_op = codes "NOOP"
as_ref (port _) = codes "PORT"
as_ref pasv = codes "PASV"
as_ref pwd = codes "PWD"
as_ref quit = codes "QUIT"
as_ref abort = codes "ABORT"
as_ref (rest _) = codes "REST"
as_ref (site _) = codes "SITE"
as_ref (retr _) = codes "RETR"
as_ref (rmd _) = codes "RMD"
as_ref (delete _) = codes "DELE"
as_ref (rnfr _) = codes "RNFR"
as_ref (rnto _) = codes "RNTO"
as_ref (stor _) = codes "STOR"
as_ref syst = codes "SYST"
as_ref (type _) = codes "TYPE"
as_ref (help _) = codes "HELP"
as_ref (stat _) = codes "STAT"
as_ref cd_up = codes "CDUP"
as_ref (user _) = codes "USER"
as_ref (Command.unknown _) = codes "UNKN"
