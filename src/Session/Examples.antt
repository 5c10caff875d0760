-- ===== src/Session/Examples.antt =====
-- handler/session.rs: the theorems at a small file system, and sessions run on it.
use minifto.Common.{
  ℕ, ◌≡◌, ◌≢◌, refl, ap, true, false, not, Option, some, [], ◌∷◌, Bytes, codes, ◌=?◌, List, map,
  ◌-◌, ◌++◌, length, lookup, arith,
}
use minifto.Cmd.Command.{Command, as_ref}
use minifto.Cmd.Parse.RoundTrip.{print}
use minifto.Codec.{encode_bytes}
use minifto.Config.{Config, default_config}
use minifto.Common.Int.{negsuc}
use minifto.SpeedBarrier.{SpeedBarrier}
use minifto.Os.{Os, s_ifreg}
use minifto.Session.State.{Machine, Run, done, panicked, out_of_fuel, new, is_logged, send_answer}
use minifto.Session.Files
use minifto.Session.Login
use minifto.Session.Retrieve
use minifto.Session.Store
use minifto.Session.Retrieve.Loop.{send_loop-ends}
use minifto.Session.Store.Loop.{all_of, receive_loop-all_of}
use minifto.Cmd.Answer.{is_empty}
use minifto.Text.Split.{find_crlf}
use minifto.Text.Utf8.{from_utf8, is_utf8_of_ascii}
use minifto.Session.Dispatch.{execute, handle_command, greet}
use minifto.Session.Dispatch.Outcome.{Ends, Returns}
use minifto.Session.Dispatch.Auth.{
  Proves, IsAuthorised, needs_login, execute-needs_login, execute-Proves,
  handle_command-IsAuthorised, execute-pass_first,
}
use minifto.Session.Dispatch.Wire.{handle_command-encode_bytes}
use minifto.Session.Dispatch.Access.{Unchanged, refused_without_admin}
use minifto.Session.Dispatch.Removal.{rmd_never_done}

abbrev pub directory : Bytes
directory = codes "/srv/dir"

-- One directory, which is empty; every other path is a file of five bytes. The world is the
-- stream that a data connection still has, and the contents of the file that is written; a call
-- that names a path puts it in the place of the contents.
abbrev pub disk : Os
disk = record {
  World = List (ℕ × Bytes) × Bytes;
  Sock = ℕ;
  Listener = ℕ;
  File = ℕ;
  access = λ path w. true;
  lstat = λ path w. some (record { st_mode = s_ifreg; st_size = 5 });
  is_dir = λ path w. path =? directory;
  exists = λ path w. false;
  canonicalize = λ path w. some path;
  read_dir = λ path w. some [];
  mkdir = λ path mode w. (true, (w.0, path));
  unlink = λ path w. (not (path =? directory), (w.0, path));
  renameat = λ from to w. (true, (w.0, to));
  fchmodat = λ path mode w. (true, w);
  connect = λ port w. (some port, w);
  bind = λ port w. (some port, w);
  accept = λ l w. (some l, w);
  send = λ c bytes w. w;
  read_buf = λ c w. elim w.0 [ [] ↦ ([], w) | chunk ∷ chunks ↦ (chunk.0 ∷ chunk.1, (chunks, w.1)) ];
  shutdown = λ c w. w;
  open_read = λ path w. (some 0, w);
  open_create = λ path mode w. (some 0, w);
  sendfile = λ c f offset count w. (some (count - offset), w);
  ftruncate = λ f w. (true, (w.0, []));
  lseek = λ f offset w. (true, w);
  write = λ f bytes w. (some (length bytes), (w.0, w.1 ++ bytes));
  close = λ f w. (true, w);
  flock_exclusive = λ f w. (true, w);
  flock_unlock = λ f w. (true, w);
  now = λ w. 0;
  sleep = λ duration w. w;
  normal_elapsed = λ size max_speed. size;
  uname = codes "Linux";
  debug = λ words. [];
}

abbrev pub info : Bytes → disk.World → Option Bytes
info path w = some path

abbrev pub config : Config
config = record default_config {
  admin = some (codes "root");
  users = (codes "root", codes "secret") ∷ (codes "guest", []) ∷ [];
}

abbrev pub fresh : Machine disk
fresh = record { session = new (codes "/srv") config; world = ([], []); sent = [] }

abbrev asked : Machine disk
asked = record fresh {
  session = record fresh.session { name = some (codes "root"); waiting_password = true };
}

abbrev guest : Machine disk
guest = record fresh {
  session = record fresh.session { name = some (codes "guest"); is_admin = false };
}

abbrev root : Machine disk
root = record fresh { session = record fresh.session { name = some (codes "root") } }

abbrev end_of : Run disk → Machine disk
end_of (done m) = m
end_of _ = fresh

execute-needs_login_example :
    execute {os = disk} info 9 (Command.mkd (codes "/new")) fresh ≡ done fresh
unfolding is_logged new needs_login
execute-needs_login_example =
    execute-needs_login {os = disk} info 9 (Command.mkd (codes "/new")) fresh refl refl

execute-Proves_example : Proves (Command.pass (codes "secret")) asked.session
unfolding is_logged execute Login.pass lookup new ◌=?◌ send_answer
execute-Proves_example =
    execute-Proves {os = disk} info 9 (Command.pass (codes "secret")) asked
      (end_of (execute {os = disk} info 9 (Command.pass (codes "secret")) asked)) refl refl refl

handle_command-IsAuthorised_example :
    Returns
      (IsAuthorised {os = disk})
      (handle_command {os = disk} info 9 (some (codes "USER root\r\n")) fresh)
unfolding IsAuthorised new
handle_command-IsAuthorised_example =
    handle_command-IsAuthorised {os = disk} info 9 (some (codes "USER root\r\n")) fresh tt

execute-pass_first_example :
    execute {os = disk} info 9 (Command.pass (codes "secret")) fresh ≡ panicked fresh
unfolding new
execute-pass_first_example = execute-pass_first {os = disk} info 9 (codes "secret") fresh refl

handle_command-encode_bytes_example :
    handle_command {os = disk} info 9
      (some (encode_bytes (print (Command.retr (codes "a.txt"))) []))
      root
    ≡ execute {os = disk} info 9 (Command.retr (codes "a.txt")) (greet {os = disk} info 9 root)
unfolding new
handle_command-encode_bytes_example =
    handle_command-encode_bytes {os = disk} info 9 (Command.retr (codes "a.txt")) root refl
      (is_utf8_of_ascii _ (omega arith), omega arith) (unfold find_crlf print as_ref in refl)

refused_without_admin_example :
    Ends (Unchanged guest) (Files.mkd {os = disk} (codes "/new") guest)
    × Ends (Unchanged guest) (Files.rmd {os = disk} 9 (codes "/new") guest)
    × Ends (Unchanged guest) (Files.rnfr {os = disk} (codes "/new") guest)
unfolding new
refused_without_admin_example = refused_without_admin {os = disk} 9 (codes "/new") guest refl

rmd_never_done_example : Files.rmd {os = disk} 9 directory root ≢ done root
unfolding new ◌=?◌ from_utf8
rmd_never_done_example =
    rmd_never_done {os = disk} (λ path w. disk.is_dir path w ≡ true) (λ path w h. ap not h)
      (λ path name w h. h) 9 directory root root refl refl refl refl

-- Two chunks that are still to come.
abbrev uploading : Machine disk
uploading = record root { world = ((b'a', codes "b") ∷ (b'c', []) ∷ [], codes "x") }

abbrev chunks_left : disk.World → List Bytes
chunks_left w = map (λ chunk. chunk.0 ∷ chunk.1) w.0

disk-end :
    (w : disk.World)
    → chunks_left w ≡ []
    → ((disk.read_buf 0 w).0 ≡ []) × ((disk.read_buf 0 w).1.1 ≡ w.1)
disk-end ([], s) e = (refl, refl)
disk-end (chunk ∷ chunks, s) e = absurd (ground (arith, e))

disk-next :
    (w : disk.World) (chunk : Bytes) (chunks : List Bytes)
    → chunks_left w ≡ chunk ∷ chunks
    → (is_empty chunk ≡ false)
      × ((disk.read_buf 0 w).0 ≡ chunk)
      × (chunks_left (disk.read_buf 0 w).1 ≡ chunks)
      × ((disk.read_buf 0 w).1.1 ≡ w.1)
disk-next ([], s) chunk chunks e = absurd (ground (arith, e))
disk-next (p ∷ ps, s) chunk chunks e =
    (ground (arith, e), ground (arith, e), ground (arith, e), refl)

abbrev unlimited : SpeedBarrier
unlimited = record { start_time = 0; max_speed = negsuc 0 }

send_loop-ends_example : Retrieve.send_loop {os = disk} 1 unlimited 0 0 0 5 root ≢ out_of_fuel
send_loop-ends_example =
    send_loop-ends {os = disk} 0 0 5 (λ offset n w small e. ground arith) 1 unlimited 0 root
      (omega arith) (omega arith)

receive_loop-all_of_example :
    (m' : Machine disk) × (Store.receive_loop {os = disk} 3 unlimited 0 0 uploading ≡ done m')
    × (m'.world.1 ≡ codes "x" ++ all_of (chunks_left uploading.world))
receive_loop-all_of_example =
    receive_loop-all_of {os = disk} 0 0 chunks_left (λ w. w.1) disk-end disk-next
      (λ chunk w. (refl, refl, refl)) (λ duration w. (refl, refl)) (chunks_left uploading.world) 3
      unlimited uploading refl (omega arith)
