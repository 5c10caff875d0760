-- ===== src/Main.antt =====
-- main.rs: what the program is asked to do. The user and the file system are arguments.
use minifto.Common.{
  Bool, Option, Bytes, codes, ◌=?◌, if◌then◌else◌, Fallible, returns, ◌>>=◌, unwrap,
}

-- The shell of the client, the refusal of a user who is not root, the server with a configuration,
-- or nothing.
pub data Task : Type 0 where
  shell_loop not_root nothing : Task
  run_server : (config : Bytes) → Task

-- `main`, with the options `--pattern` and `--config`, whose defaults are "server" and "".
unfoldable pub main :
    (is_root_user : Bool)
    → (canonicalize : Bytes → Option Bytes) → (pattern config : Bytes) → Fallible Task
main is_root_user canonicalize pattern config =
    if pattern =? codes "client"
    then returns Task.shell_loop
    else (if pattern =? codes "server"
        then (if is_root_user
            then (unwrap (canonicalize config) >>= λ path. returns (Task.run_server path))
            else returns Task.not_root)
        else returns Task.nothing)
