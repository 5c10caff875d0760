-- ===== src/ThreadPool/Wakeup.antt =====
-- threadpool/queue.rs: the condition variable loses no wake-up.
use minifto.Common.{
  ℕ, zero, suc, ◌+◌, ◌*◌, ◌≤◌, ◌≡◌, refl, sym, ap, subst, ◌∙◌, List, [], ◌∷◌, ◌++◌, length,
  length-append, arith, inl, inr, true, ◌⊎◌,
}
use native.Mathlib.Nat.{suc-mul}
use minifto.ThreadPool.{
  ThreadPool, Workers, Status, Message, Label, Step, WorkerStep, Run, awake, asleep, busy, last,
  stopped, died, total, is_asleep, is_running, receive, after_job, expand, push, notify, new,
}
use minifto.ThreadPool.Totals.{
  Nat-cases, is_awake, total-append, total-set, notify_one-asleep, notify_one-awake,
}
use minifto.ThreadPool.Size.{IsSized, Step-IsSized, new-IsSized}
use minifto.ThreadPool.Spawn.{crew, expand_lem}

module _ {J : Type 0} where
  -- No thread sleeps while there are more messages than threads on their way to the queue and
  -- notifications still to come.
  unfoldable pub NoneLost : ThreadPool J → Type 0
  NoneLost p = (total is_asleep p.workers ≡ 0) ⊎ (length p.queue ≤ total is_awake p.workers + p.due)

  -- A sum after one worker's status has changed.
  pub moved :
      (f : Status J → ℕ) (p : ThreadPool J) (l r : Workers J) (i : ℕ) (a b : Status J)
      → p.workers ≡ l ++ (i, a) ∷ r
      → total f (l ++ (i, b) ∷ r) + f a ≡ total f p.workers + f b
  moved f p l r i a b e = total-set f l r i a b ∙ ap (λ (v : Workers J). total f v + f b) (sym e)

  -- The invariant holds on if no more threads sleep, and the threads that are awake have as many
  -- messages fewer to take.
  kept :
      (p p' : ThreadPool J)
      → NoneLost p
      → total is_asleep p'.workers ≤ total is_asleep p.workers
      → length p'.queue + total is_awake p.workers + p.due
        ≤ length p.queue + total is_awake p'.workers + p'.due
      → NoneLost p'
  unfolding NoneLost
  kept p p' h a b = elim h [ inl z ↦ inl (omega (arith, z)) | inr m ↦ inr (omega (arith, m)) ]

  receive-still : (m : Message J) → (is_asleep (receive m) ≡ 0) × (is_awake (receive m) ≡ 0)
  receive-still (Message.new_job j) = (refl, refl)
  receive-still (Message.timer_job j) = (refl, refl)
  receive-still Message.terminate = (refl, refl)

  pub running-still :
      (s : Status J)
      → is_running s ≡ true
      → (is_asleep s ≡ 0) × (is_awake s ≡ 0) × (is_asleep (after_job s) ≡ 0)
  running-still awake h = cc
  running-still asleep h = cc
  running-still stopped h = cc
  running-still died h = cc
  running-still (busy j) h = (refl, refl, refl)
  running-still (last j) h = (refl, refl, refl)

  pub WorkerStep-NoneLost :
      (p p' : ThreadPool J) (a : Label J) → NoneLost p → WorkerStep p a p' → NoneLost p'
  WorkerStep-NoneLost p p' _ h (WorkerStep.pops l r i m q e full) =
      let still = receive-still m in
      kept p p' h (omega (arith, moved is_asleep p l r i awake (receive m) e, still.0))
        (omega (arith, moved is_awake p l r i awake (receive m) e, still.1, ap length full))
  WorkerStep-NoneLost p p' _ h (WorkerStep.waits l r i e empty) =
      unfold NoneLost in inr (omega (arith, ap length empty))
  WorkerStep-NoneLost p p' _ h (WorkerStep.finishes l r i s e k) =
      let still = running-still s k in
      kept p p' h (omega (arith, moved is_asleep p l r i s (after_job s) e, still.0, still.2))
        (omega (arith, moved is_awake p l r i s (after_job s) e, still.1))
  WorkerStep-NoneLost p p' _ h (WorkerStep.panics l r i s e k) =
      let still = running-still s k in
      kept p p' h (omega (arith, moved is_asleep p l r i s died e, still.0))
        (omega (arith, moved is_awake p l r i s died e, still.1))

  pub push-NoneLost : (m : Message J) (p : ThreadPool J) → NoneLost p → NoneLost (push m p)
  unfolding push
  push-NoneLost m p h =
      kept p (record p { queue = p.queue ++ m ∷ []; due = p.due + 1 }) h (omega arith)
        (omega (arith, length-append p.queue (m ∷ [])))

  pub notify-NoneLost :
      (k n : ℕ) (p : ThreadPool J) → p.due ≡ suc n → NoneLost p → NoneLost (notify k p)
  unfolding NoneLost notify
  notify-NoneLost k n p due h =
      let slept = notify_one-asleep k p.workers in
      let woke = notify_one-awake k p.workers in
      elim h [
        | inl z ↦ inl (omega (arith, z))
        | inr n ↦ elim (Nat-cases (total is_asleep p.workers)) [
          | inl z ↦ inl (omega (arith, z))
          | inr s ↦ inr (omega (arith, n, s, due))
        ]
      ]

  crew-awake : (f : Status J → ℕ) (id n : ℕ) → total f (crew id n) ≡ n * f awake
  unfolding total crew
  crew-awake f id zero = omega arith
  crew-awake f id (suc n) = omega (arith, crew-awake f (suc id) n, suc-mul n (f awake))

  expand-NoneLost :
      (cpus : ℕ) (p : ThreadPool J) → IsSized cpus p → NoneLost p → NoneLost (expand p)
  expand-NoneLost cpus p s h = elim (expand_lem p s.ids) [
    | inl e ↦ subst NoneLost (sym e) h
    | inr e ↦
        let grown = crew (length p.workers) p.core_size in
        subst NoneLost (sym e.1) (
          kept p (record p { workers = p.workers ++ grown }) h
            (omega (
              arith,
              total-append is_asleep p.workers grown,
              crew-awake is_asleep (length p.workers) p.core_size,
            ))
            (omega (arith, total-append is_awake p.workers grown)))
  ]

  Step-NoneLost :
      (cpus : ℕ) (p p' : ThreadPool J) (a : Label J)
      → IsSized cpus p
      → NoneLost p
      → Step p a p'
      → NoneLost p'
  Step-NoneLost cpus p p' a s h (Step.works step) = WorkerStep-NoneLost p p' a h step
  Step-NoneLost cpus p p' _ s h (Step.wakes l r i e) =
      kept p p' h (omega (arith, moved is_asleep p l r i asleep awake e))
        (omega (arith, moved is_awake p l r i asleep awake e))
  Step-NoneLost cpus p _ _ s h Step.expands = expand-NoneLost cpus p s h
  Step-NoneLost cpus p _ _ s h (Step.executes job) = push-NoneLost (Message.new_job job) p h
  Step-NoneLost cpus p _ _ s h Step.drops = push-NoneLost Message.terminate p h
  Step-NoneLost cpus p _ _ s h (Step.notifies k n e) = notify-NoneLost k n p e h

  Run-NoneLost :
      (cpus : ℕ) (p p' : ThreadPool J) (trace : List (Label J))
      → IsSized cpus p
      → NoneLost p
      → Run p trace p'
      → NoneLost p'
  Run-NoneLost cpus p _ _ s h Run.stop = h
  Run-NoneLost cpus p p'' _ s h (Run.next {p' = p'} {a = a} {trace = trace} step run) =
      Run-NoneLost cpus p' p'' trace (Step-IsSized cpus p p' a s step)
        (Step-NoneLost cpus p p' a s h step) run

  -- In every state that the pool of `new(0)` comes to, no thread sleeps on the condition variable,
  -- or the threads on their way to the queue and the calls of `notify_one` that are still to be
  -- made are together at least as many as the messages in the queue: no wake-up is lost, though
  -- `push_back` notifies after it has released the lock.
  pub Run-new-NoneLost :
      (cpus : ℕ) (p : ThreadPool J) (trace : List (Label J)) → Run (new cpus 0) trace p → NoneLost p
  Run-new-NoneLost cpus p trace run =
      Run-NoneLost cpus (new cpus 0) p trace (new-IsSized cpus)
        (unfold new NoneLost in inr (omega arith)) run
