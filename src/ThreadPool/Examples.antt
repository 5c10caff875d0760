-- ===== src/ThreadPool/Examples.antt =====
-- threadpool/threadpool.rs: the theorems at a pool of one processor, with jobs that are numbers.
use minifto.Common.{ℕ, ◌+◌, ◌≤◌, ◌≡◌, ◌⊎◌, refl, List, [], ◌∷◌, ◌++◌, length}
use minifto.ThreadPool.{
  asleep, ThreadPool, Label, Step, WorkerStep, Run, new_job, terminate, awake, busy, total, spawn,
  spawn_all, new, notify_one, push, notify, expand,
}
use minifto.ThreadPool.Order.{sent, taken, sent-taken}
use minifto.ThreadPool.Size.{Run-new_bounds}
use minifto.ThreadPool.Spawn.{Below}
use minifto.ThreadPool.Wakeup.{NoneLost, Run-new-NoneLost}
use minifto.ThreadPool.Shutdown.{Drop, is_live}
use minifto.ThreadPool.Join.{WorkerRun, work_left, CanStep, Drop-joins}

program : Unit {0}
unfolding total spawn spawn_all new notify_one push notify expand
program = tt

-- The second of the two workers is in the job 7, the first waits, and the job 8 is in the queue.
abbrev one_busy : ThreadPool ℕ
one_busy = record {
  workers = (0, awake) ∷ (1, busy 7) ∷ [];
  queue = new_job 8 ∷ [];
  due = 0;
  core_size = 1;
  max_size = 8;
}

abbrev trace : List (Label ℕ)
trace =
    Label.quiet
    ∷ Label.quiet
    ∷ Label.sent (new_job 7)
    ∷ Label.taken (new_job 7)
    ∷ Label.quiet
    ∷ Label.sent (new_job 8)
    ∷ Label.quiet
    ∷ []

-- The first worker waits, and the second takes the job before the first is woken for it. The first
-- has not come to the lock yet when the other job is sent.
abbrev one_busy-Run : Run (new 1 0) trace one_busy
unfolding program
one_busy-Run = Run.next (Step.works (WorkerStep.waits [] ((1, awake) ∷ []) 0 refl refl)) (
    Run.next Step.expands (
      Run.next (Step.executes 7) (
        Run.next (Step.works (WorkerStep.pops ((0, asleep) ∷ []) [] 1 (new_job 7) [] refl refl)) (
          Run.next (Step.notifies 0 0 refl)
            (Run.next (Step.executes 8) (Run.next (Step.notifies 0 0 refl) Run.stop))))))

sent-taken_example : (new 1 0).queue ++ sent trace ≡ taken trace ++ one_busy.queue
sent-taken_example = sent-taken (new 1 0) one_busy trace one_busy-Run

Run-new_bounds_example :
    (length one_busy.workers ≤ one_busy.max_size + 1)
    × Below (length one_busy.workers) one_busy.workers
Run-new_bounds_example = Run-new_bounds 1 one_busy trace one_busy-Run

Run-new-NoneLost_example : NoneLost one_busy
Run-new-NoneLost_example = Run-new-NoneLost 1 one_busy trace one_busy-Run

-- A message that ends a worker for each, and the job 8 that a worker takes.
abbrev dropped : ThreadPool ℕ
dropped = record one_busy { queue = new_job 8 ∷ terminate ∷ terminate ∷ [] }

abbrev dropped-Drop : Drop one_busy 2 0 dropped
unfolding program
dropped-Drop = Drop.notifies 0 (Drop.sends (Drop.notifies 0 (Drop.sends (Drop.start refl))))

abbrev resumed : ThreadPool ℕ
resumed = record dropped {
  workers = (0, busy 8) ∷ (1, busy 7) ∷ [];
  queue = terminate ∷ terminate ∷ [];
}

Drop-joins_example :
    (1 ≤ work_left dropped) × ((total is_live resumed.workers ≡ 0) ⊎ CanStep resumed)
Drop-joins_example = Drop-joins 1 1 one_busy dropped resumed trace one_busy-Run dropped-Drop (
    WorkerRun.works WorkerRun.start
      (WorkerStep.pops [] ((1, busy 7) ∷ []) 0 (new_job 8) (terminate ∷ terminate ∷ []) refl refl))
