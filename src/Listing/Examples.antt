-- ===== src/Listing/Examples.antt =====
-- handler/session.rs: lines of LIST.
use minifto.Common.{◌≡◌, refl, Option, some, [], ◌∷◌, ◌++◌, Bytes, codes, returns}
use minifto.Text.Split.{split}
use minifto.Text.Decimal.{show}
use minifto.Listing.{FileStat, file_typ, permissions, file_str, format_size, add_file_info}

program : Unit {0}
unfolding file_typ permissions file_str format_size add_file_info split show
program = tt

abbrev lstat : Bytes → Option FileStat
lstat path = some (record {
  st_mode = 0o100644;
  st_nlink = 1;
  st_size = 168;
  time = codes "Mar 28 17:49:00";
  user = some (codes "root");
  group = some (codes "root");
})

-- The letters of the permissions come in the order of the bits, from the least one: the mode
-- `rw-r--r--` is printed with the permissions of the others first.
file_line :
    add_file_info lstat (codes "/srv/lib.rs") []
    ≡ returns
        (codes "---x--x-rx   1 root root     168  Mar 28 17:49:00 lib.rs" ++ b'\r' ∷ b'\n' ∷ [])
unfolding program
file_line = refl

-- A size of one mebibyte is printed in kibibytes, in one letter more than the others.
mebibyte_line : format_size 1048576 ≡ codes "1024.00K"
unfolding program
mebibyte_line = refl

-- Halves are rounded to the even digit.
half_lines :
    (format_size 1152 ≡ codes "  1.12K")
    × (format_size 1408 ≡ codes "  1.38K")
    × (format_size 1664 ≡ codes "  1.62K")
unfolding program
half_lines = (refl, refl, refl)
