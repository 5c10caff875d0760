-- ===== src/ThreadPool/Shutdown.antt =====
-- threadpool/threadpool.rs: the `Drop` of the pool, which sends a message to each worker and joins.
use minifto.Common.{
  ℕ, suc, ◌+◌, ◌-◌, ◌≤◌, ◌≡◌, refl, sym, ap, ◌∙◌, List, [], ◌∷◌, ◌++◌, length, arith, true,
}
use minifto.ThreadPool.{
  ThreadPool, Workers, Status, Message, Label, WorkerStep, awake, asleep, busy, last, stopped, died,
  total, is_running, receive, after_job, push, notify, notify_one, new_job, timer_job, terminate,
}
use minifto.ThreadPool.Totals.{length-set, length-notify_one}
use minifto.ThreadPool.Wakeup.{NoneLost, moved, WorkerStep-NoneLost, push-NoneLost, notify-NoneLost}

module _ {J : Type 0} where
  -- The threads that a `join` would wait for, and those that will end by themselves.
  abbrev pub is_live : Status J → ℕ
  is_live stopped = 0
  is_live died = 0
  is_live s = 1

  abbrev pub is_last : Status J → ℕ
  is_last (last j) = 1
  is_last s = 0

  unfoldable pub ends : List (Message J) → ℕ
  ends [] = 0
  ends (terminate ∷ q) = suc (ends q)
  ends (new_job j ∷ q) = ends q
  ends (timer_job j ∷ q) = ends q

  -- `drop` has sent `n` messages, the workers having gone on meanwhile, and has `d` notifications
  -- still to make; it starts when no `push_back` is under way.
  pub data Drop (p : ThreadPool J) : ℕ → ℕ → ThreadPool J → Type 0 where
    start : p.due ≡ 0 → Drop p 0 0 p
    sends : {n : ℕ} {q : ThreadPool J} → Drop p n 0 q → Drop p (suc n) 1 (push terminate q)
    notifies : {n : ℕ} {q : ThreadPool J} (k : ℕ) → Drop p n 1 q → Drop p n 0 (notify k q)
    works :
        {n d : ℕ} {a : Label J} {q q' : ThreadPool J}
        → Drop p n d q
        → WorkerStep q a q'
        → Drop p n d q'

  -- A thread for which no end is on its way would be one that `n` more messages must reach.
  pub record Owed (size n d : ℕ) (p : ThreadPool J) : Type 0 where
    pub same : length p.workers ≡ size
    pub owed : total is_live p.workers + n ≤ size + ends p.queue + total is_last p.workers
    pub late : p.due ≡ d

  ends-append : (q : List (Message J)) → ends (q ++ terminate ∷ []) ≡ ends q + 1
  unfolding ends
  ends-append [] = refl
  ends-append (terminate ∷ q) = omega (arith, ends-append q)
  ends-append (new_job j ∷ q) = ends-append q
  ends-append (timer_job j ∷ q) = ends-append q

  pub ends-length : (q : List (Message J)) → ends q ≤ length q
  unfolding ends
  ends-length [] = omega arith
  ends-length (terminate ∷ q) = omega (arith, ends-length q)
  ends-length (new_job j ∷ q) = omega (arith, ends-length q)
  ends-length (timer_job j ∷ q) = omega (arith, ends-length q)

  -- A worker that takes a message lives on, or was sent its end.
  receive-ends :
      (m : Message J) (q : List (Message J))
      → ends (m ∷ q) + is_live (receive m) ≤ ends q + 1 + is_last (receive m)
  unfolding ends
  receive-ends terminate q = omega arith
  receive-ends (new_job j) q = omega arith
  receive-ends (timer_job j) q = omega arith

  after_job-ends :
      (s : Status J)
      → is_running s ≡ true
      → (is_live (after_job s) + is_last s ≡ is_live s + is_last (after_job s))
        × (is_live s ≡ 1)
        × (is_last s ≤ 1)
  after_job-ends awake h = cc
  after_job-ends asleep h = cc
  after_job-ends stopped h = cc
  after_job-ends died h = cc
  after_job-ends (busy j) h = (refl, refl, omega arith)
  after_job-ends (last j) h = (refl, refl, omega arith)

  pub WorkerStep-Owed :
      (size n d : ℕ) (p p' : ThreadPool J) (a : Label J)
      → Owed size n d p
      → WorkerStep p a p'
      → Owed size n d p'
  WorkerStep-Owed size n d p _ _ h (WorkerStep.pops l r i m q e full) = record {
    same = length-set l r i awake (receive m) ∙ ap length (sym e) ∙ h.same;
    owed = omega (
      arith,
      h.owed,
      moved is_live p l r i awake (receive m) e,
      moved is_last p l r i awake (receive m) e,
      receive-ends m q,
      ap ends full,
    );
    late = h.late;
  }
  WorkerStep-Owed size n d p _ _ h (WorkerStep.waits l r i e empty) = record {
    same = length-set l r i awake asleep ∙ ap length (sym e) ∙ h.same;
    owed =
        omega (
          arith,
          h.owed,
          moved is_live p l r i awake asleep e,
          moved is_last p l r i awake asleep e,
        );
    late = h.late;
  }
  WorkerStep-Owed size n d p _ _ h (WorkerStep.finishes l r i s e k) = record {
    same = length-set l r i s (after_job s) ∙ ap length (sym e) ∙ h.same;
    owed = omega (
      arith,
      h.owed,
      moved is_live p l r i s (after_job s) e,
      moved is_last p l r i s (after_job s) e,
      (after_job-ends s k).0,
    );
    late = h.late;
  }
  WorkerStep-Owed size n d p _ _ h (WorkerStep.panics l r i s e k) = record {
    same = length-set l r i s died ∙ ap length (sym e) ∙ h.same;
    owed = omega (
      arith,
      h.owed,
      moved is_live p l r i s died e,
      moved is_last p l r i s died e,
      (after_job-ends s k).1,
      (after_job-ends s k).2,
    );
    late = h.late;
  }

  notify_one-live :
      (k : ℕ) (ws : Workers J)
      → (total is_live (notify_one k ws) ≡ total is_live ws)
        × (total is_last (notify_one k ws) ≡ total is_last ws)
  unfolding notify_one total
  notify_one-live k [] = (refl, refl)
  notify_one-live k ((i, asleep) ∷ ws) =
      let h = notify_one-live (k - 1) ws in (ground (arith, h.0), ground (arith, h.1))
  notify_one-live k ((i, awake) ∷ ws) =
      let h = notify_one-live k ws in (omega (arith, h.0), omega (arith, h.1))
  notify_one-live k ((i, stopped) ∷ ws) =
      let h = notify_one-live k ws in (omega (arith, h.0), omega (arith, h.1))
  notify_one-live k ((i, died) ∷ ws) =
      let h = notify_one-live k ws in (omega (arith, h.0), omega (arith, h.1))
  notify_one-live k ((i, busy j) ∷ ws) =
      let h = notify_one-live k ws in (omega (arith, h.0), omega (arith, h.1))
  notify_one-live k ((i, last j) ∷ ws) =
      let h = notify_one-live k ws in (omega (arith, h.0), omega (arith, h.1))

  push-Owed :
      (size n : ℕ) (p : ThreadPool J) → Owed size n 0 p → Owed size (suc n) 1 (push terminate p)
  unfolding push
  push-Owed size n p h = record {
    same = h.same;
    owed = omega (arith, h.owed, ends-append p.queue);
    late = omega (arith, h.late);
  }

  notify-Owed : (size n k : ℕ) (p : ThreadPool J) → Owed size n 1 p → Owed size n 0 (notify k p)
  unfolding notify
  notify-Owed size n k p h = record {
    same = length-notify_one k p.workers ∙ h.same;
    owed = omega (arith, h.owed, (notify_one-live k p.workers).0, (notify_one-live k p.workers).1);
    late = omega (arith, h.late);
  }

  at_most_one : (s : Status J) → is_live s ≤ 1
  at_most_one awake = omega arith
  at_most_one asleep = omega arith
  at_most_one stopped = omega arith
  at_most_one died = omega arith
  at_most_one (busy j) = omega arith
  at_most_one (last j) = omega arith

  live-length : (ws : Workers J) → total is_live ws ≤ length ws
  unfolding total
  live-length [] = omega arith
  live-length ((i, s) ∷ ws) = omega (arith, live-length ws, at_most_one s)

  pub Drop-Owed :
      (p q : ThreadPool J) (n d : ℕ)
      → NoneLost p
      → Drop p n d q
      → NoneLost q × Owed (length p.workers) n d q
  Drop-Owed p _ _ _ h (Drop.start calm) =
      (h, record { same = refl; owed = omega (arith, live-length p.workers); late = calm })
  Drop-Owed p _ _ _ h (Drop.sends {n = n} {q = q} d) =
      let (none, owed) = Drop-Owed p q n 0 h d in
      (push-NoneLost terminate q none, push-Owed (length p.workers) n q owed)
  Drop-Owed p _ _ _ h (Drop.notifies {n = n} {q = q} k d) =
      let (none, owed) = Drop-Owed p q n 1 h d in
      (notify-NoneLost k 0 q owed.late none, notify-Owed (length p.workers) n k q owed)
  Drop-Owed p q' _ _ h (Drop.works {n = n} {d = late} {a = a} {q = q} d step) =
      let (none, owed) = Drop-Owed p q n late h d in
      (
        WorkerStep-NoneLost q q' a none step,
        WorkerStep-Owed (length p.workers) n late q q' a owed step,
      )
