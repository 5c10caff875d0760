-- ===== src/Listing/Letters.antt =====
-- handler/session.rs: the letters of a line of LIST.
use minifto.Common.{ℕ, ◌≢◌, arith}
use minifto.Listing.{file_typ}

-- A link and a socket have the letter of a file, whatever their mode, and a device of blocks has
-- the letter of a directory.
pub file_typ-lem :
    (mode : ℕ) → (file_typ mode ≢ b'l') × (file_typ mode ≢ b's') × (file_typ mode ≢ b'b')
unfolding file_typ
file_typ-lem mode = (ground arith, ground arith, ground arith)
