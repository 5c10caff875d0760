-- ===== src/ThreadPool/Join.antt =====
-- threadpool/threadpool.rs: the joins in the `Drop` of the pool.
use minifto.Common.{
  ℕ, suc, ◌+◌, ◌*◌, ◌≤◌, ◌<◌, ◌≡◌, refl, ap, List, [], ◌∷◌, ◌++◌, length, arith, inl, inr, true,
  ◌⊎◌,
}
use minifto.ThreadPool.{
  ThreadPool, Workers, Status, Message, Label, WorkerStep, Run, awake, asleep, busy, last, stopped,
  died, total, is_asleep, is_running, receive, after_job, new,
}
use minifto.ThreadPool.Totals.{Nat-cases, is_awake, find_worker}
use minifto.ThreadPool.Wakeup.{NoneLost, moved, WorkerStep-NoneLost, Run-new-NoneLost}
use minifto.ThreadPool.Shutdown.{
  is_live, is_last, ends-length, Drop, Owed, Drop-Owed, WorkerStep-Owed,
}

module _ {J : Type 0} where
  -- `n` steps of the workers alone.
  pub data WorkerRun (p : ThreadPool J) : ℕ → ThreadPool J → Type 0 where
    start : WorkerRun p 0 p
    works :
        {n : ℕ} {a : Label J} {q q' : ThreadPool J}
        → WorkerRun p n q
        → WorkerStep q a q'
        → WorkerRun p (suc n) q'

  -- What the workers can still do: a message costs more than a job, and a job more than a wait.
  abbrev weight : Status J → ℕ
  weight awake = 1
  weight (busy j) = 2
  weight (last j) = 2
  weight s = 0

  unfoldable pub work_left : ThreadPool J → ℕ
  unfolding total
  work_left p = 3 * length p.queue + total weight p.workers

  receive-weight : (m : Message J) → weight (receive m) ≤ 2
  receive-weight (Message.new_job j) = omega arith
  receive-weight (Message.timer_job j) = omega arith
  receive-weight Message.terminate = omega arith

  after_job-weight : (s : Status J) → is_running s ≡ true → weight (after_job s) < weight s
  after_job-weight awake h = cc
  after_job-weight asleep h = cc
  after_job-weight stopped h = cc
  after_job-weight died h = cc
  after_job-weight (busy j) h = omega arith
  after_job-weight (last j) h = omega arith

  WorkerStep-work_left :
      (p p' : ThreadPool J) (a : Label J) → WorkerStep p a p' → work_left p' < work_left p
  unfolding work_left
  WorkerStep-work_left p _ _ (WorkerStep.pops l r i m q e full) =
      omega (arith, moved weight p l r i awake (receive m) e, receive-weight m, ap length full)
  WorkerStep-work_left p _ _ (WorkerStep.waits l r i e empty) =
      omega (arith, moved weight p l r i awake asleep e)
  WorkerStep-work_left p _ _ (WorkerStep.finishes l r i s e k) =
      omega (arith, moved weight p l r i s (after_job s) e, after_job-weight s k)
  WorkerStep-work_left p _ _ (WorkerStep.panics l r i s e k) =
      omega (arith, moved weight p l r i s died e, after_job-weight s k)

  unfoldable pub CanStep : ThreadPool J → Type 0
  CanStep p = (a : Label J) × (p' : ThreadPool J) × WorkerStep p a p'

  awake_steps :
      (p : ThreadPool J) (q : List (Message J))
      → p.queue ≡ q
      → 0 < total is_awake p.workers
      → CanStep p
  unfolding CanStep
  awake_steps p q e h = go q e (find_worker is_awake p.workers h)
    where
      go :
          (q : List (Message J))
          → p.queue ≡ q
          → ((l : Workers J) × (r : Workers J) × (i : ℕ) × (s : Status J) × (p.workers
                ≡ l ++ (i, s) ∷ r)
              × (0 < is_awake s))
          → CanStep p
      go [] e (l, r, i, awake, at, h) = (_, _, WorkerStep.waits l r i at e)
      go (m ∷ q) e (l, r, i, awake, at, h) = (_, _, WorkerStep.pops l r i m q at e)
      go q e (l, r, i, _, at, h) = absurd (omega arith)

  is_busy : Status J → ℕ
  is_busy (busy j) = 1
  is_busy (last j) = 1
  is_busy s = 0

  -- A thread that lives is awake, asleep or in a job.
  parts :
      (s : Status J) → (is_live s ≡ is_awake s + is_asleep s + is_busy s) × (is_last s ≤ is_busy s)
  unfolding is_busy
  parts awake = (refl, omega arith)
  parts asleep = (refl, omega arith)
  parts stopped = (refl, omega arith)
  parts died = (refl, omega arith)
  parts (busy j) = (refl, omega arith)
  parts (last j) = (refl, omega arith)

  total-parts :
      (ws : Workers J)
      → (total is_live ws ≡ total is_awake ws + total is_asleep ws + total is_busy ws)
        × (total is_last ws ≤ total is_busy ws)
  unfolding total
  total-parts [] = (refl, omega arith)
  total-parts ((i, s) ∷ ws) =
      let h = total-parts ws in
      let k = parts s in (omega (arith, h.0, k.0), omega (arith, h.1, k.1))

  busy_steps : (p : ThreadPool J) → 0 < total is_busy p.workers → CanStep p
  unfolding CanStep is_busy
  busy_steps p h = go (find_worker is_busy p.workers h)
    where
      go :
          (l : Workers J) × (r : Workers J) × (i : ℕ) × (s : Status J) × (p.workers
              ≡ l ++ (i, s) ∷ r)
            × (0 < is_busy s)
          → CanStep p
      go (l, r, i, busy j, at, h) = (_, _, WorkerStep.finishes l r i (busy j) at refl)
      go (l, r, i, last j, at, h) = (_, _, WorkerStep.finishes l r i (last j) at refl)
      go (l, r, i, _, at, h) = absurd (omega arith)

  -- Where every thread's end is on its way, some thread goes on until all have ended.
  live_steps :
      (p : ThreadPool J) (size : ℕ)
      → NoneLost p
      → Owed size size 0 p
      → (total is_live p.workers ≡ 0) ⊎ CanStep p
  unfolding NoneLost
  live_steps p size none owed =
      let sums = total-parts p.workers in
      elim (Nat-cases (total is_busy p.workers)) [
        | inr b ↦ inr (busy_steps p b)
        | inl b ↦ elim (Nat-cases (total is_awake p.workers)) [
          | inr a ↦ inr (awake_steps p p.queue refl a)
          | inl a ↦ inl (elim none [
            | inl z ↦ omega (arith, sums.0, a, b, z)
            | inr z ↦
                omega (arith, sums.0, sums.1, a, b, z, owed.owed, owed.late, ends-length p.queue)
          ])
        ]
      ]

  WorkerRun-lem :
      (p q : ThreadPool J) (n size : ℕ)
      → NoneLost p
      → Owed size size 0 p
      → WorkerRun p n q
      → NoneLost q × Owed size size 0 q × (n + work_left q ≤ work_left p)
  WorkerRun-lem p _ _ size none owed WorkerRun.start = (none, owed, omega arith)
  WorkerRun-lem p q' _ size none owed (WorkerRun.works {n = n} {a = a} {q = q} run step) =
      let (none', owed', less) = WorkerRun-lem p q n size none owed run in
      (
        WorkerStep-NoneLost q q' a none' step,
        WorkerStep-Owed size size 0 q q' a owed' step,
        omega (arith, less, WorkerStep-work_left q q' a step),
      )

  -- In a pool of any state that `new(0)` leads to, in which no `push_back` is under way, let
  -- `drop` send one message for each worker and notify after each, the workers going on meanwhile,
  -- and then let the workers make any number of steps without a wake-up that has no cause. That
  -- number is at most what `work_left` was after `drop` had sent, and then every thread has ended,
  -- or some thread can make a further step: no `join` waits for ever, whatever jobs panic.
  pub Drop-joins :
      (cpus n : ℕ) (p q r : ThreadPool J) (trace : List (Label J))
      → Run (new cpus 0) trace p
      → Drop p (length p.workers) 0 q
      → WorkerRun q n r
      → (n ≤ work_left q) × ((total is_live r.workers ≡ 0) ⊎ CanStep r)
  Drop-joins cpus n p q r trace before drop run =
      let (none, owed) =
        Drop-Owed p q (length p.workers) 0 (Run-new-NoneLost cpus p trace before) drop in
      let (none', owed', less) = WorkerRun-lem q r n (length p.workers) none owed run in
      (omega (arith, less), live_steps r (length p.workers) none' owed')
