-- ===== src/Server/Interleaving/Examples.antt =====
-- server/server.rs: an event gives a session to the pool, and a worker takes it.
use minifto.Common.{ℕ, ◌≡◌, refl, ap, List, [], ◌∷◌, ◌++◌, map, codes, arith, returns, ◌>>=◌}
use minifto.EventLoop.{Token}
use minifto.Session.Examples.{disk, info}
use minifto.SortedList.{lookup}
use minifto.SortedList.Examples.{seconds, one_session, first}
use minifto.SortedList.Keys.{descriptor}
use minifto.Connection.{is_close, is_hup}
use minifto.ThreadPool
use minifto.ThreadPool.{
  Label, Run, Message, awake, new_job, spawn_all, spawn, notify_one, total, execute, expand,
  push_back, push, notify,
}
use minifto.TimerList.Timed.{Items}
use minifto.Server.{serve}
use minifto.Server.State.{System}
use minifto.Server.Served.{Served, At}
use minifto.Server.Notify.{notify-submit}
use minifto.Server.Examples.{quiet, serving, moment, one_IsServer}
use minifto.Server.Jobs.{Reach, set_pool, submissions}
use minifto.ThreadPool.Order
use minifto.ThreadPool.Order.{sent}
use minifto.Server.Interleaving.{Kept, Reach-Run, Reach-Served}

at_20 : At (seconds 10) (moment 20)
at_20 = (omega arith, λ i. (omega arith, omega arith), omega arith)

-- The event, as it is proved to be handled.
abbrev after_event :
    (m : System disk quiet) × (serve
        (codes "/srv")
        ((moment 20, (Token.notify 4, 1)) ∷ [])
        (serving first.0)
      ≡ returns m)
    × (m.server.worker_pool ≡ execute 0 40 (ThreadPool.new 1 0))
unfolding lookup is_close is_hup serve
after_event =
    let (m, run, pool, written, timed) =
      notify-submit (seconds 10) (serving first.0) one_session one_IsServer (moment 20) 4 1 at_20
        (seconds 10, 40) refl refl refl in
    (m, ap (λ r. r >>= λ m'. serve (codes "/srv") [] m') run, pool)

abbrev in_job : System disk quiet
in_job = set_pool after_event.0 (record after_event.0.server.worker_pool {
  workers = (0, ThreadPool.busy 40) ∷ (1, awake) ∷ [];
  queue = [];
})

abbrev taken :
    Reach {os = disk} {kernel = quiet} info 9
      (codes "/srv")
      (seconds 10)
      (serving first.0)
      (seconds 20)
      []
      in_job
unfolding spawn_all spawn notify_one total execute expand push_back push notify ThreadPool.new
taken =
    Reach.pops [] ((1, awake) ∷ []) 0 (new_job 40) []
      (Reach.event (moment 20) (Token.notify 4) 1 after_event.0 Reach.begins at_20 after_event.1)
      (ap (λ p. p.workers) after_event.2) (ap (λ p. p.queue) after_event.2)

Reach-Run_example :
    (trace : List (Label ℕ)) × Run (ThreadPool.new 1 0) trace in_job.server.worker_pool
    × (sent trace ≡ map new_job (submissions taken))
    × ((ThreadPool.new 1 0).queue ++ map new_job (submissions taken)
        ≡ Order.taken trace ++ in_job.server.worker_pool.queue)
Reach-Run_example = Reach-Run taken

Reach-Served_example :
    (l : Items ℕ ℕ) × Kept (serving first.0) (seconds 20) [] in_job l
    × Served in_job
        (seconds 121)
        (serve (codes "/srv") ((moment 121, (Token.timer 6, 1)) ∷ []) in_job)
Reach-Served_example =
    Reach-Served one_session (moment 121) (Token.timer 6) 1 one_IsServer taken
      (omega arith, λ i. (omega arith, omega arith), omega arith)
