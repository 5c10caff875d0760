-- ===== src/LocalClient/Line.antt =====
-- server/local_client.rs: the words of a line of the user, and its first word.
use minifto.Common.{
  ℕ, Bool, true, false, not, ◌||◌, ◌&&◌, List, [], ◌∷◌, leb, ◌==◌, ◌=?◌, if◌then◌else◌, Bytes,
  codes, length,
}

-- White space: a blank, and the bytes from tab to carriage return but the vertical tab.
is_white : ℕ → Bool
is_white c = (c == 32) || ((leb 9 c && leb c 13) && not (c == 11))

-- `strip_trailing_newline`, which trims all the white space at the end.
unfoldable pub strip_trailing_newline : Bytes → Bytes
unfolding is_white
strip_trailing_newline [] = []
strip_trailing_newline (c ∷ s) =
    let rest = strip_trailing_newline s in
    if (is_white c || (c == 11)) && (length rest == 0) then [] else c ∷ rest

-- A byte in front of the pieces, whose first may be empty.
put_front : Bool → ℕ → List Bytes → List Bytes
put_front true c pieces = [] ∷ pieces
put_front false c [] = (c ∷ []) ∷ []
put_front false c (p ∷ pieces) = (c ∷ p) ∷ pieces

cut_white : Bytes → List Bytes
cut_white [] = [] ∷ []
cut_white (c ∷ s) = put_front (is_white c) c (cut_white s)

non_empty : List Bytes → List Bytes
non_empty [] = []
non_empty ([] ∷ pieces) = non_empty pieces
non_empty ((c ∷ p) ∷ pieces) = (c ∷ p) ∷ non_empty pieces

unfoldable pub split_ascii_whitespace : Bytes → List Bytes
unfolding cut_white put_front non_empty is_white
split_ascii_whitespace s = non_empty (cut_white s)

-- The commands that `handle_cmd` knows.
pub data Verb : Type 0 where
  open_verb user_verb passive abor close_verb cd list_verb put_verb get_verb pwd mkdir rmdir del :
      Verb
  syst binary size noop help exit_verb invalid : Verb

unfoldable pub verb : Bytes → Verb
verb cmd =
    if cmd =? codes "OPEN"
    then Verb.open_verb
    else (if cmd =? codes "USER"
        then Verb.user_verb
        else (if cmd =? codes "PASSIVE"
            then Verb.passive
            else (if cmd =? codes "ABOR"
                then Verb.abor
                else (if cmd =? codes "CLOSE"
                    then Verb.close_verb
                    else (if cmd =? codes "CD"
                        then Verb.cd
                        else (if cmd =? codes "LIST"
                            then Verb.list_verb
                            else (if cmd =? codes "PUT"
                                then Verb.put_verb
                                else (if cmd =? codes "GET"
                                    then Verb.get_verb
                                    else (if cmd =? codes "PWD"
                                        then Verb.pwd
                                        else (if cmd =? codes "MKDIR"
                                            then Verb.mkdir
                                            else (if cmd =? codes "RMDIR"
                                                then Verb.rmdir
                                                else (if cmd =? codes "DEL"
                                                    then Verb.del
                                                    else (if cmd =? codes "SYST"
                                                        then Verb.syst
                                                        else (if cmd =? codes "BINARY"
                                                            then Verb.binary
                                                            else (if cmd =? codes "SIZE"
                                                            then Verb.size
                                                            else (if cmd =? codes "NOOP"
                                                            then Verb.noop
                                                            else (if cmd =? codes "HELP"
                                                            then Verb.help
                                                            else (if (cmd =? codes "EXIT")
                                                            || (cmd =? codes "QUIT")
                                                            then Verb.exit_verb
                                                            else Verb.invalid))))))))))))))))))
