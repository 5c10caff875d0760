-- ===== src/Lib.antt =====
-- minifto is an FTP server. Its core is the path of one command: bytes come from a socket into a
-- buffer, a line is taken from the buffer and parsed to a command, the session of the connection
-- executes the command, and its answers are encoded and written back. Around it, one thread waits for
-- events: it accepts connections, keeps a list of the sessions in the order of their last use, drops
-- those that are idle, and gives a session with an event to a pool of worker threads. This library
-- models the path and the loop around it, with the panics of the code as results.
--
-- Parts, the files here, and the files of the repository:
-- - Cmd models src/handler/cmd.rs and src/handler/error.rs. Cmd/Parse.antt is `Command::new`, with
--   the match on the keyword in Cmd/Keyword.antt and `extract_port` in Cmd/Port.antt; Cmd/Answer.antt,
--   Cmd/Command.antt, Cmd/Code.antt and Cmd/Error.antt are the types. `print`, in
--   Cmd/Parse/RoundTrip.antt, is an independent description of the lines of a client.
-- - Codec models src/handler/codec.rs: `FtpCodec` is the server's side and `BytesCodec` the client's.
-- - Buffer models src/net/buffer.rs: a vector with two indices. `IsQueue`, in Buffer/Queue.antt, says
--   which queue of bytes a buffer holds; the operations refine those of the queue, and
--   Buffer/Room.antt makes room for what `append` adds.
-- - Session models src/handler/session.rs, with `remove_dir_all`, and `is_regular` of
--   src/utils/utils.rs: Session/State.antt has the fields and `send_answer`, Session/Login.antt,
--   Session/Files.antt (with Session/Files/Directories.antt), Session/Transfer.antt,
--   Session/Retrieve.antt and Session/Store.antt the handlers, and Session/Dispatch.antt
--   `handle_command`. `connected` is that of src/net/connection.rs. The handlers work on a machine: the session, the world of the operating
--   system, and the bytes sent to the client. A run of a handler returns, panics with the machine as
--   it was then, or is out of fuel.
-- - Connection models src/net/connection.rs: the bits of the events, `dispatch`, `read_msg` and
--   `read_buf` over the buffer; Connection/Calls.antt has what a connection asks of the kernel.
-- - SortedList models the doubly linked list of src/net/sorted_list.rs, over a heap in which a read of
--   a freed node is a panic, which SortedList/Nodes.antt has. SortedList/Ring.antt has the ring of nodes, with the lemmas on addresses
--   and pointers in SortedList/Addresses.antt and SortedList/Links.antt, SortedList/Holds.antt the
--   nodes that a list holds, and SortedList/Lists.antt the items; SortedList/Trace.antt runs
--   sequences of operations against a plain list, and SortedList/Drop.antt is about the end of the
--   list. TimerList models the `TimerList` over it:
--   TimerList/Timed.antt the order of the times, TimerList/Idle.antt `remove_idle`.
-- - ThreadPool models src/threadpool: the queue with its condition variable, and the threads as a
--   step relation in which the scheduler chooses. ThreadPool/Wakeup.antt is about the condition
--   variable, ThreadPool/Order.antt about the queue, ThreadPool/Size.antt about the number of
--   workers, ThreadPool/Shutdown.antt and ThreadPool/Join.antt about `drop`.
-- - Poller and EventLoop model src/net/poller.rs and src/net/event_loop.rs: the room for the events of
--   `epoll_wait`, the registrations, the kinds of events and the order in which `run` hands them
--   over, which EventLoop/Order.antt is about. Kernel has the system calls of the server, a
--   parameter. Socket models src/net/socket.rs and src/net/acceptor.rs.
-- - Server models src/server/server.rs: Server/State.antt has the state, and Server.antt `ready`,
--   `notify`, and the job of a worker, which is `handle_command` under the mutex of the session.
--   Server/Served.antt has the invariant, Server/Admission.antt and Server/Invariant.antt the events
--   that keep it, and Server/Notify.antt what an event of a session does; Server/Owners.antt who keeps
--   a session alive. Server/Loop.antt is the loop of `run` with this handler, and Server/Rounds.antt
--   is about its turns. Server/Jobs.antt joins the events to the work of the pool, in any order, which
--   Server/Interleaving.antt is about, with Server/Pooled.antt and Server/Ran.antt.
--   Server/Start.antt is `Config::new` and `run_server`, and Server/Startup.antt is about the server
--   that it starts.
-- - Utils models src/utils/utils.rs, and Main src/main.rs.
-- - Listing models `add_file_info`, `permissions`, `format_size` and `invaild_path` of
--   src/handler/session.rs, with the macros of src/utils/macro_utils.rs; SpeedBarrier models src/handler/speed_barrier.rs, and RecordLock
--   src/server/record_lock.rs.
-- - LocalClient models src/server/local_client.rs: the commands of the user, what they send, and
--   what becomes of the answers; LocalClient/Line.antt has the words of a line,
--   LocalClient/Transfer.antt the commands with a data connection, and LocalClient/Shell.antt
--   `handle_cmd` and `shell_loop`. LocalClient/Talk.antt joins the client to a session of the server,
--   and LocalClient/Talk/Login.antt is about its login there.
-- - Config models the record of src/utils/config.rs and its default.
-- - Os is the operating system as the session uses it, a parameter: what `nix` and the standard
--   library do is read from their documentation only where a theorem names it as a hypothesis.
-- - Text has the functions of the standard library on texts that the code calls: UTF-8, splitting,
--   decimal numbers and paths. Common has the shared names.
--
-- Numbers are natural numbers. A `usize` is kept below `2 ^ 64` by `usize_add` and `usize_sub`, and a
-- vector that would pass `2 ^ 63 - 1` bytes panics. Bytes are numbers, and a text is the list of its
-- UTF-8 bytes. A map is an association list.
--
-- Loops that the code does not bound take fuel: `Buffer.read`, the loops of RETR and STOR, and
-- `remove_dir_all`, which follows the directories, and the loop of the client's GET. Theorems about
-- what a handler keeps hold for every fuel. A round of `Buffer.read` that does not fill its room is
-- the last; a call of `sendfile` that sends less than 128 KiB ends the loop of RETR, and every chunk
-- of a stream takes one round of the loop of STOR (Session/Retrieve/Loop.antt and
-- Session/Store/Loop.antt). The loop of `run` does not end, and `shell_loop` ends with a command of
-- the user: they are run for a number of turns, and of lines.
--
-- `SortedList.clear` and `TimerList.remove_idle` take fuel too: a round for each item and one more is
-- enough. The times of events are nanoseconds, and the readings of the clock an argument.
--
-- Not modelled: floating point numbers, which are arguments (the rates that a transfer formats, and
-- the division of the speed barrier), but for the sizes of `format_size`, which are whole, and the
-- logarithm of `approximate_pow`, which is rounded to the nearest `f64`; times as
-- texts, which are arguments too; logging, the parser of the command line, and what the client
-- prints. System calls, the crate serde_yaml and the reading of socket addresses are parameters. The
-- session takes `add_file_info` as an argument, and `read_buf` of a data connection is a call of Os:
-- the buffer behind it is the one of Connection, and not kept with the socket. `ResultCode::from_i32`
-- is derived, and a parameter. The server's thread waits for a mutex that a worker holds; here a job
-- and an event are done at once. Of a descriptor that
-- epoll reports, the lowest 32 bits are kept, which are the descriptor that was registered.
pub mod Common
pub mod Text
pub mod Cmd
pub mod Codec
pub mod Buffer
pub mod Os
pub mod Config
pub mod Session
pub mod SortedList
pub mod TimerList
pub mod ThreadPool
pub mod Connection
pub mod EventLoop
pub mod Kernel
pub mod Poller
pub mod Socket
pub mod Utils
pub mod LocalClient
pub mod Listing
pub mod SpeedBarrier
pub mod RecordLock
pub mod Server
pub mod Main
