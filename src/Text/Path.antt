-- ===== src/Text/Path.antt =====
-- `std::path` on Unix: a path is a text, and `/` separates its components.
use minifto.Common.{
  Bool, true, false, ◌||◌, Option, none, some, List, [], ◌∷◌, ◌++◌, ◌==◌, if◌then◌else◌, Bytes,
  codes, ◌=?◌,
}
use minifto.Text.Split.{split}

-- `Path::is_absolute`
unfoldable pub is_absolute : Bytes → Bool
is_absolute [] = false
is_absolute (c ∷ p) = c == b'/'

ends_with_slash : Bytes → Bool
ends_with_slash [] = true
ends_with_slash (c ∷ []) = c == b'/'
ends_with_slash (c ∷ d ∷ p) = ends_with_slash (d ∷ p)

-- `Path::join`: an absolute path replaces the first; an empty first path gets no separator.
unfoldable pub join : Bytes → Bytes → Bytes
unfolding is_absolute ends_with_slash
join p q = if is_absolute q then q else if ends_with_slash p then p ++ q else p ++ b'/' ∷ q

last_component : Option Bytes → List Bytes → Option Bytes
last_component found [] = found
last_component found (s ∷ rest) =
    last_component (if (s =? []) || (s =? codes ".") then found else some s) rest

-- `Path::file_name` of an absolute path: its last component, unless that is `..`.
unfoldable pub file_name : Bytes → Option Bytes
unfolding last_component split ◌=?◌
file_name p = elim (last_component none (split b'/' p)) [
  | none ↦ none
  | some s ↦ if s =? codes ".." then none else some s
]
