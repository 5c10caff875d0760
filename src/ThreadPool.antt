-- ===== src/ThreadPool.antt =====
-- threadpool/threadpool.rs and threadpool/queue.rs: the pool of worker threads and the blocking queue
-- that feeds them. A worker is its id in the map and what its thread is doing. What is done under the
-- lock of the queue is one step, and so is a call of `notify_one`, which is made without it; a wait
-- on the condition variable is a state of the thread.
pub mod Totals
pub mod Order
pub mod Spawn
pub mod Size
pub mod Wakeup
pub mod Shutdown
pub mod Join
mod Examples
use minifto.Common.{
  ℕ, zero, suc, ◌+◌, ◌-◌, ◌*◌, ◌≡◌, Bool, true, false, ◌&&◌, ◌||◌, List, [], ◌∷◌, ◌++◌, ltb, leb,
  ◌==◌, if◌then◌else◌, length,
}

pub data Message (J : Type 0) : Type 0 where
  new_job timer_job : J → Message J
  terminate : Message J

-- `awake`: before `pop_front` has the lock; `asleep`: in `condvar.wait`; `busy` and `last`: in the
-- job of a `NewJob` and of a `TimerJob`; `stopped`: out of the loop; `died`: the job panicked.
pub data Status (J : Type 0) : Type 0 where
  awake asleep stopped died : Status J
  busy last : J → Status J

abbrev pub Workers : Type 0 → Type 0
Workers J = List (ℕ × Status J)

-- What happens to the queue in a step.
pub data Label (J : Type 0) : Type 0 where
  sent taken : Message J → Label J
  quiet : Label J

-- `due` are the calls of `push_back` that have put their message in the queue and not notified yet.
pub record ThreadPool (J : Type 0) : Type 0 where
  pub workers : Workers J
  pub queue : List (Message J)
  pub due : ℕ
  pub core_size : ℕ
  pub max_size : ℕ

module _ {J : Type 0} where
  -- A sum over the threads.
  unfoldable pub total : (Status J → ℕ) → Workers J → ℕ
  total f [] = 0
  total f (w ∷ ws) = f w.1 + total f ws

  abbrev pub is_asleep : Status J → ℕ
  is_asleep asleep = 1
  is_asleep _ = 0

  -- `Worker::new`, and `insert` into the map.
  unfoldable pub spawn : ℕ → Workers J → Workers J
  spawn id [] = (id, awake) ∷ []
  spawn id ((j, s) ∷ ws) = if j == id then (id, awake) ∷ ws else (j, s) ∷ spawn id ws

  -- `n` workers, of the ids from `id` on.
  unfoldable pub spawn_all : (id n : ℕ) → Workers J → Workers J
  spawn_all id zero ws = ws
  spawn_all id (suc n) ws = spawn_all (suc id) n (spawn id ws)

  -- `ThreadPool::new`, where `cpus` is what `num_cpus::get` returns.
  unfoldable pub new : (cpus size : ℕ) → ThreadPool J
  new cpus size = record {
    workers = spawn_all 0 (if ltb 0 size then size else cpus + 1) [];
    queue = [];
    due = 0;
    core_size = cpus;
    max_size = cpus * 8;
  }

  -- `notify_one` wakes a thread that waits, if there is one: the choice is the scheduler's, `k`.
  unfoldable pub notify_one : (k : ℕ) → Workers J → Workers J
  unfolding total
  notify_one k [] = []
  notify_one k ((i, asleep) ∷ ws) =
      if (k == 0) || (total is_asleep ws == 0)
      then (i, awake) ∷ ws
      else (i, asleep) ∷ notify_one (k - 1) ws
  notify_one k (w ∷ ws) = w ∷ notify_one k ws

  -- The two statements of `BlockingQueue::push_back`; the lock is released between them.
  unfoldable pub push : Message J → ThreadPool J → ThreadPool J
  push m p = record p { queue = p.queue ++ m ∷ []; due = p.due + 1 }

  unfoldable pub notify : (k : ℕ) → ThreadPool J → ThreadPool J
  notify k p = record p { workers = notify_one k p.workers; due = p.due - 1 }

  -- `BlockingQueue::push_back`, when no worker comes between.
  unfoldable pub push_back : (k : ℕ) → Message J → ThreadPool J → ThreadPool J
  unfolding push notify
  push_back k m p = notify k (push m p)

  -- The expansion in `execute`.
  unfoldable pub expand : ThreadPool J → ThreadPool J
  expand p =
      if leb p.core_size (length p.queue) && ltb (length p.workers) p.max_size
      then record p { workers = spawn_all (length p.workers) p.core_size p.workers }
      else p

  -- `execute`
  unfoldable pub execute : (k : ℕ) → J → ThreadPool J → ThreadPool J
  unfolding expand push_back
  execute k job p = push_back k (new_job job) (expand p)

  unfoldable pub len : ThreadPool J → ℕ
  len p = length p.workers

  -- What a worker does with a message, and after its job.
  abbrev pub receive : Message J → Status J
  receive (new_job job) = busy job
  receive (timer_job job) = last job
  receive terminate = stopped

  abbrev pub after_job : Status J → Status J
  after_job (busy job) = awake
  after_job (last job) = stopped
  after_job s = s

  abbrev pub is_running : Status J → Bool
  is_running (busy job) = true
  is_running (last job) = true
  is_running s = false

  -- The loop of a worker; `l` and `r` are the workers around it.
  pub data WorkerStep (p : ThreadPool J) : Label J → ThreadPool J → Type 0 where
    pops :
        (l r : Workers J) (i : ℕ) (m : Message J) (q : List (Message J))
        → p.workers ≡ l ++ (i, awake) ∷ r
        → p.queue ≡ m ∷ q
        → WorkerStep p (taken m) (record p { workers = l ++ (i, receive m) ∷ r; queue = q })
    waits :
        (l r : Workers J) (i : ℕ)
        → p.workers ≡ l ++ (i, awake) ∷ r
        → p.queue ≡ []
        → WorkerStep p quiet (record p { workers = l ++ (i, asleep) ∷ r })
    finishes :
        (l r : Workers J) (i : ℕ) (s : Status J)
        → p.workers ≡ l ++ (i, s) ∷ r
        → is_running s ≡ true
        → WorkerStep p quiet (record p { workers = l ++ (i, after_job s) ∷ r })
    panics :
        (l r : Workers J) (i : ℕ) (s : Status J)
        → p.workers ≡ l ++ (i, s) ∷ r
        → is_running s ≡ true
        → WorkerStep p quiet (record p { workers = l ++ (i, died) ∷ r })

  -- A step of the program: a worker's, a wake-up without a cause, the expansion in `execute`, and the
  -- statements of `push_back`, called by `execute` and by the loop in `drop`. The calls may be made
  -- by any number of threads, each of which notifies after its push.
  pub data Step (p : ThreadPool J) : Label J → ThreadPool J → Type 0 where
    works : {a : Label J} {p' : ThreadPool J} → WorkerStep p a p' → Step p a p'
    wakes :
        (l r : Workers J) (i : ℕ)
        → p.workers ≡ l ++ (i, asleep) ∷ r
        → Step p quiet (record p { workers = l ++ (i, awake) ∷ r })
    expands : Step p quiet (expand p)
    executes : (job : J) → Step p (sent (new_job job)) (push (new_job job) p)
    drops : Step p (sent terminate) (push terminate p)
    notifies : (k n : ℕ) → p.due ≡ suc n → Step p quiet (notify k p)

  -- Any number of steps, with their labels.
  pub data Run : ThreadPool J → List (Label J) → ThreadPool J → Type 0 where
    stop : {p : ThreadPool J} → Run p [] p
    next :
        {p p' p'' : ThreadPool J} {a : Label J} {trace : List (Label J)}
        → Step p a p'
        → Run p' trace p''
        → Run p (a ∷ trace) p''
