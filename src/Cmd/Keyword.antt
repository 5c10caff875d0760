-- ===== src/Cmd/Keyword.antt =====
-- handler/cmd.rs: the literals that `Command::new` matches the first word with, in its order.
pub mod Laws
use minifto.Common.{List, [], ◌∷◌, if◌then◌else◌, Bytes, codes, ◌=?◌}

-- One keyword for each arm of the match.
pub data Keyword : Type 0 where
  acct pasv pwd quit abort syst cd_up no_op rest cwd size pass retr rnfr rnto stor site : Keyword
  stat list n_lst port type user help mkd rmd dele : Keyword
  other : Keyword

abbrev table : List (Bytes × Keyword)
table =
    (codes "Acct", acct)
    ∷ (codes "PASV", pasv)
    ∷ (codes "PWD", pwd)
    ∷ (codes "QUIT", quit)
    ∷ (codes "ABORT", abort)
    ∷ (codes "SYST", syst)
    ∷ (codes "CDUP", cd_up)
    ∷ (codes "NOOP", no_op)
    ∷ (codes "REST", rest)
    ∷ (codes "CWD", cwd)
    ∷ (codes "SIZE", size)
    ∷ (codes "PASS", pass)
    ∷ (codes "RETR", retr)
    ∷ (codes "RNFR", rnfr)
    ∷ (codes "RNTO", rnto)
    ∷ (codes "STOR", stor)
    ∷ (codes "SITE", site)
    ∷ (codes "STAT", stat)
    ∷ (codes "LIST", list)
    ∷ (codes "NLST", n_lst)
    ∷ (codes "PORT", port)
    ∷ (codes "TYPE", type)
    ∷ (codes "USER", user)
    ∷ (codes "HELP", help)
    ∷ (codes "MKD", mkd)
    ∷ (codes "RMD", rmd)
    ∷ (codes "DELE", dele)
    ∷ []

first_match : List (Bytes × Keyword) → Bytes → Keyword
first_match [] s = other
first_match ((k, v) ∷ m) s = if s =? k then v else first_match m s

-- The arm that the match takes.
unfoldable pub keyword : Bytes → Keyword
unfolding first_match ◌=?◌
keyword s = first_match table s
