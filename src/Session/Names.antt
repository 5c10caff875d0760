-- ===== src/Session/Names.antt =====
-- handler/session.rs: the names that a listing sorts and prints.
use minifto.Common.{
  Bool, true, false, Option, none, some, List, [], ◌∷◌, ◌++◌, if◌then◌else◌, Bytes, ltb, ◌==◌,
}
use minifto.Text.Split.{split}
use minifto.Codec.{crlf}
use mathlib.Core.Option

-- Bytewise order of texts, and the sort of a vector of them.
text_le : Bytes → Bytes → Bool
text_le [] t = true
text_le (a ∷ s) [] = false
text_le (a ∷ s) (b ∷ t) = let rest = text_le s t in if a == b then rest else ltb a b

insert_sorted : Bytes → List Bytes → List Bytes
insert_sorted s [] = s ∷ []
insert_sorted s (t ∷ l) = if text_le s t then s ∷ t ∷ l else t ∷ insert_sorted s l

-- `file_names.sort()`
unfoldable pub sort : List Bytes → List Bytes
unfolding insert_sorted text_le
sort [] = []
sort (s ∷ l) = insert_sorted s (sort l)

last_of : List Bytes → Bytes
last_of [] = []
last_of (p ∷ []) = p
last_of (p ∷ q ∷ l) = last_of (q ∷ l)

-- `s.split('/').last().unwrap()`
unfoldable pub base_name : Bytes → Bytes
unfolding last_of
base_name s = last_of (split b'/' s)

-- The lines of NLST: the names without a leading `.`; an empty name panics at its first byte.
unfoldable pub name_lines : List Bytes → Option Bytes
name_lines [] = some []
name_lines (s ∷ l) =
    let rest = name_lines l in
    elim (base_name s) [
      | [] ↦ none
      | c ∷ n ↦ Option.map (λ r. if c == b'.' then r else (c ∷ n) ++ (crlf ++ r)) rest
    ]

-- `for_each(|s| add_file_info(s, &mut out))`; `file_info` gives the text for one path.
unfoldable pub info_lines : (Bytes → Option Bytes) → List Bytes → Option Bytes
info_lines file_info [] = some []
info_lines file_info (s ∷ l) =
    let rest = info_lines file_info l in
    elim (file_info s) [ none ↦ none | some t ↦ Option.map (λ r. t ++ r) rest ]
