-- ===== src/LocalClient/Shell.antt =====
-- server/local_client.rs: a line of the user, and the loop over the lines.
use minifto.Common.{
  ℕ, zero, suc, not, Option, none, some, List, [], ◌∷◌, ◌++◌, ◌-◌, ◌==◌, if◌then◌else◌, Bytes,
  codes, length, take, Fallible, returns, panics, ◌>>=◌, unwrap,
}
use minifto.Common.Int.{ℤ}
use minifto.Text.Utf8.{to_ascii_uppercase}
use minifto.Cmd.Code.{ResultCode}
use minifto.LocalClient.Line.{Verb, verb, strip_trailing_newline, split_ascii_whitespace}
use minifto.LocalClient.Transfer.{list, get, put}
use minifto.LocalClient.{
  Peer, Client, open_host, user, close, exit, pwd, cd, mkdir, rmdir, delete, binary, size, syst,
  noop, abort, send_cmd,
}

module _ (peer : Peer) (from_i32 : ℤ → Option ResultCode) where
  -- A command that needs an argument panics without one.
  with_arg : List Bytes → (Bytes → Fallible (Client peer)) → Fallible (Client peer)
  with_arg [] f = panics
  with_arg (a ∷ args) f = f a

  -- What is done with a verb and its arguments; `fuel` bounds the loop of `get`.
  unfoldable pub act :
      (fuel : ℕ) → Verb → List Bytes → Client peer → Fallible (Option (Client peer))
  unfolding with_arg open_host user close list get put exit pwd cd mkdir rmdir delete binary size
      syst noop abort
  act fuel Verb.get_verb [] c = panics
  act fuel Verb.get_verb (file ∷ args) c = get peer from_i32 fuel file c
  act fuel v args c = act_once v args c >>= λ c'. returns (some c')
    where
      act_once : Verb → List Bytes → Client peer → Fallible (Client peer)
      act_once Verb.open_verb args c = open_host peer from_i32 args c
      act_once Verb.user_verb args c = user peer from_i32 c
      act_once Verb.passive args c = returns (record c.0 { pasv_mode = not c.0.pasv_mode }, c.1)
      act_once Verb.abor args c = abort peer from_i32 c
      act_once Verb.close_verb args c = close peer from_i32 c
      act_once Verb.cd args c = with_arg args λ path. cd peer from_i32 path c
      act_once Verb.list_verb args c = with_arg args λ path. list peer from_i32 path c
      act_once Verb.put_verb args c = with_arg args λ file. put peer from_i32 file c
      act_once Verb.pwd args c = pwd peer from_i32 c
      act_once Verb.mkdir args c = with_arg args λ path. mkdir peer from_i32 path c
      act_once Verb.rmdir args c = with_arg args λ path. rmdir peer from_i32 path c
      act_once Verb.del args c = with_arg args λ path. delete peer from_i32 path c
      act_once Verb.syst args c = syst peer from_i32 c
      act_once Verb.binary args c = binary peer from_i32 c
      act_once Verb.size args c = with_arg args λ path. size peer from_i32 path c
      act_once Verb.noop args c = noop peer from_i32 c
      act_once Verb.exit_verb args c = returns (exit peer c)
      act_once v args c = returns c

  -- `handle_cmd`
  unfoldable pub handle_cmd : (fuel : ℕ) → Bytes → Client peer → Fallible (Option (Client peer))
  unfolding act verb split_ascii_whitespace strip_trailing_newline
  handle_cmd fuel line c = words (split_ascii_whitespace (strip_trailing_newline line))
    where
      words : List Bytes → Fallible (Option (Client peer))
      words [] = returns (some c)
      words (cmd ∷ args) = act fuel (verb (to_ascii_uppercase cmd)) args c

  -- `pasv`, which no command of the user calls
  unfoldable pub pasv : Client peer → Fallible (Client peer)
  unfolding send_cmd
  pasv c = send_cmd peer from_i32 (codes "PASV") c >>= λ r. unwrap r.1 >>= λ answer. returns r.0

  -- `shell_loop`, for a number of lines: `none` is a loop that has not ended by then. A line is read
  -- behind what `line` still has, which is something only after an error. At the end of the input
  -- the loop goes on.
  unfoldable pub shell_loop :
      (lines fuel : ℕ) → (line : Bytes) → Client peer → Fallible (Option (Client peer))
  unfolding handle_cmd
  shell_loop zero fuel line c = returns none
  shell_loop (suc lines) fuel line c =
      let r = peer.read_line c.1 in after_read r.0 (c.0, r.1) (λ line'. shell_loop lines fuel line')
    where
      next :
          (Client peer → Fallible (Option (Client peer)))
          → Client peer
          → Fallible (Option (Client peer))
      next again c = if c.0.quit then returns (some c) else again c

      after_command :
          (Client peer → Fallible (Option (Client peer)))
          → Option (Client peer)
          → Fallible (Option (Client peer))
      after_command again none = returns none
      after_command again (some c) = next again c

      after_read :
          Option Bytes
          → Client peer
          → (Bytes → Client peer → Fallible (Option (Client peer)))
          → Fallible (Option (Client peer))
      after_read none c again = next (again line) c
      after_read (some text) c again =
          let line' = line ++ text in
          let popped = take (length line' - 1) line' in
          if length text == 0
          then again popped c
          else (handle_cmd fuel popped c >>= λ r. after_command (again []) r)
