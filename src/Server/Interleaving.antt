-- ===== src/Server/Interleaving.antt =====
-- server/server.rs and threadpool/threadpool.rs: the server and its pool together.
mod Examples
use minifto.Common.{
  ℕ, ◌+◌, ◌≤◌, ◌≡◌, refl, sym, ap, subst, ◌∙◌, Bool, true, false, Bool-cases, Option, none, some,
  List, [], ◌∷◌, ◌++◌, map, Bytes, inl, inr, ◌⊎◌, arith, Fallible, returns, panics, ◌>>=◌, length,
  ◌==◌, ◌||◌, if◌then◌else◌, Returned, Returned-bind, Returned-branch,
}
use minifto.Os.{Os}
use minifto.Kernel.{Kernel}
use minifto.Connection
use minifto.Connection.{Connection, is_close, is_hup}
use minifto.Connection.Calls
use minifto.EventLoop
use minifto.EventLoop.{Token}
use minifto.Socket
use minifto.SortedList.{update}
use minifto.SortedList.Addresses.{has}
use minifto.SortedList.Keys.{descriptor}
use minifto.ThreadPool
use minifto.ThreadPool.{
  ThreadPool, Label, Message, Step, WorkerStep, Run, Workers, busy, execute, expand, push,
  push_back,
}
use minifto.ThreadPool.Order.{sent, taken, sent-taken}
use minifto.TimerList
use minifto.TimerList.{TimerList}
use minifto.TimerList.Timed.{Items, IsTimed}
use minifto.Server.{
  serve, ready, connect, admit, admits, add_session, notify, notify_session, hang_up, submit,
  deregister, remove_idle, run_job, write_revents,
}
use minifto.Server.State.{Slot, Moment, System, set_sessions, drop_sessions}
use minifto.Server.Served.{Fault, At, InTime, IsServer, Served}
use minifto.Server.Invariant.{serve-Served}
use minifto.Server.Jobs.{Reach, worked, after_job, submitted, submissions}
use minifto.Server.Pooled.{Submits, serve-Submits}
use minifto.Server.Ran.{Ran, Ran-quiet, Ran-executed}

worked-Step :
    (p : ThreadPool ℕ) (l r : Workers ℕ) (i s : ℕ) (poisoned : Bool)
    → p.workers ≡ l ++ (i, busy s) ∷ r
    → Step p Label.quiet (record p { workers = l ++ (i, worked poisoned) ∷ r })
worked-Step p l r i s true e = Step.works (WorkerStep.panics l r i (busy s) e refl)
worked-Step p l r i s false e = Step.works (WorkerStep.finishes l r i (busy s) e refl)

-- What the server's thread and the workers keep: the order of the sessions and their number, as in
-- the server's invariant, and only those mutexes are poisoned that were so at the start, or whose
-- session had a job that panicked.
pub record Kept {os : Os} {kernel : Kernel} (start : System os kernel) (t : ℕ) (bad : List ℕ)
    (m : System os kernel) (l : Items ℕ ℕ) : Type 0 where
  pub timed : IsTimed t m.server.sessions l
  pub at_most : (m.server.config.max_clients ≡ 0) ⊎ (length l ≤ m.server.config.max_clients)
  pub blamed :
      (s : ℕ) → (m.slots s).poisoned ≡ true → (has s bad ≡ true) ⊎ ((start.slots s).poisoned ≡ true)

module _ {os : Os} {kernel : Kernel} (start : System os kernel) (t : ℕ) (bad : List ℕ)
    (m : System os kernel) (l : Items ℕ ℕ) (h : Kept start t bad m l) where
  -- The server's invariant, of which this system is the start.
  Kept-IsServer : IsServer m t m l
  Kept-IsServer = record { timed = h.timed; at_most = h.at_most; sound = λ s poisoned. poisoned }

  Kept-event :
      (root : Bytes) (moment : Moment) (token : Token) (revents : ℕ) (m' : System os kernel)
      → At t moment
      → serve root ((moment, (token, revents)) ∷ []) m ≡ returns m'
      → (l' : Items ℕ ℕ) × Kept start moment.until bad m' l'
  unfolding Served
  Kept-event root moment token revents m' at e =
      let served =
        subst (Served m moment.until) e
          (serve-Served t root ((moment, (token, revents)) ∷ []) m l (at, tt) Kept-IsServer) in
      elim served [
        | inl panicked ↦ absurd (cc panicked.0)
        | inr (m2, l2, same, after) ↦
            let here : IsServer m moment.until m' l2 =
              subst (Returned (λ x. IsServer m moment.until x l2)) (sym same) after in
            (
              l2,
              record {
                timed = here.timed;
                at_most = here.at_most;
                blamed = λ s poisoned. h.blamed s (here.sound s poisoned);
              },
            )
      ]

  -- A job leaves all mutexes but that of its session as they were.
  job-blamed :
      (s : ℕ) (slot : Slot os.Sock) (q : ℕ)
      → (update m.slots s slot q).poisoned ≡ true
      → (has q (if slot.poisoned then s ∷ bad else bad) ≡ true) ⊎ ((start.slots q).poisoned ≡ true)
  job-blamed s slot q poisoned = elim (Bool-cases (s == q)) [
    | inl same ↦ inl (ground (arith, same, poisoned))
    | inr other ↦ elim (h.blamed q (ground (arith, other, poisoned))) [
      | inl old ↦ inl (ground (arith, old))
      | inr old ↦ inr old
    ]
  ]

module _ {os : Os} {kernel : Kernel} {file_info : Bytes → os.World → Option Bytes} {fuel : ℕ}
    {root : Bytes} {t0 : ℕ} {start : System os kernel} where
  Reach-Ran :
      {t : ℕ} {bad : List ℕ} {m : System os kernel}
      (reach : Reach file_info fuel root t0 start t bad m)
      → Ran start.server.worker_pool (submissions reach) m.server.worker_pool
  unfolding submissions sent after_job
  Reach-Ran Reach.begins = record { trace = []; run = Run.stop; in_order = refl }
  Reach-Ran (Reach.event {m = m} moment token revents m' reach at e) =
      let pooled =
        subst (Returned (Submits moment token revents m)) e
          (serve-Submits root moment token revents m) in
      subst (Ran _ _) (sym pooled) (
        Ran-executed _ _ moment.choice (submissions reach) (submitted token revents m)
          (Reach-Ran reach))
  Reach-Ran (Reach.pops l r i a q reach e f) =
      Ran-quiet _ _ _ _ (Label.taken a) refl (Reach-Ran reach)
        (Step.works (WorkerStep.pops l r i a q e f))
  Reach-Ran (Reach.waits l r i reach e f) =
      Ran-quiet _ _ _ _ Label.quiet refl (Reach-Ran reach) (Step.works (WorkerStep.waits l r i e f))
  Reach-Ran (Reach.wakes l r i reach e) =
      Ran-quiet _ _ _ _ Label.quiet refl (Reach-Ran reach) (Step.wakes l r i e)
  Reach-Ran (Reach.job l r i s msg world slot reach e f) =
      Ran-quiet _ _ _ _ Label.quiet refl (Reach-Ran reach) (worked-Step _ l r i s slot.poisoned e)

  -- After any events and steps of the workers, the pool of the server has gone through a run of
  -- the pool in which these messages were sent, in this order, and no other: a job for each event
  -- of a session that the server had and whose connection was not closed, with that session. The
  -- messages that the workers have taken and then those left in the queue are those that were in
  -- it at the start and then these.
  pub Reach-Run :
      {t : ℕ} {bad : List ℕ} {m : System os kernel}
      (reach : Reach file_info fuel root t0 start t bad m)
      → (trace : List (Label ℕ)) × Run start.server.worker_pool trace m.server.worker_pool
        × (sent trace ≡ map Message.new_job (submissions reach))
        × (start.server.worker_pool.queue ++ map Message.new_job (submissions reach)
            ≡ taken trace ++ m.server.worker_pool.queue)
  Reach-Run {m = m} reach =
      let ran = Reach-Ran reach in
      (
        ran.trace,
        ran.run,
        ran.in_order,
        ap (λ l. start.server.worker_pool.queue ++ l) (sym ran.in_order)
            ∙ sent-taken start.server.worker_pool m.server.worker_pool ran.trace ran.run,
      )

  pub Reach-Kept :
      {t : ℕ} {bad : List ℕ} {m : System os kernel} (l0 : Items ℕ ℕ)
      → IsServer start t0 start l0
      → Reach file_info fuel root t0 start t bad m
      → (l : Items ℕ ℕ) × Kept start t bad m l
  unfolding after_job
  Reach-Kept l0 h Reach.begins =
      (l0, record { timed = h.timed; at_most = h.at_most; blamed = λ s bad. inr bad })
  Reach-Kept l0 h (Reach.event moment token revents m' reach at e) =
      let (l, kept) = Reach-Kept l0 h reach in
      Kept-event start _ _ _ l kept root moment token revents m' at e
  Reach-Kept l0 h (Reach.pops l r i a q reach e f) =
      let (l, kept) = Reach-Kept l0 h reach in
      (l, record { timed = kept.timed; at_most = kept.at_most; blamed = kept.blamed })
  Reach-Kept l0 h (Reach.waits l r i reach e f) =
      let (l, kept) = Reach-Kept l0 h reach in
      (l, record { timed = kept.timed; at_most = kept.at_most; blamed = kept.blamed })
  Reach-Kept l0 h (Reach.wakes l r i reach e) =
      let (l, kept) = Reach-Kept l0 h reach in
      (l, record { timed = kept.timed; at_most = kept.at_most; blamed = kept.blamed })
  Reach-Kept l0 h (Reach.job l r i s msg world slot reach e f) =
      let (l, kept) = Reach-Kept l0 h reach in
      (
        l,
        record {
          timed = kept.timed;
          at_most = kept.at_most;
          blamed = job-blamed start _ _ _ l kept s slot;
        },
      )

  -- Let the invariant of the server hold at the start. After any events in the order of time and
  -- any steps of the workers between them, the order of the sessions and the limit on their number
  -- hold still, and a mutex is poisoned only if it was so at the start, or if a job of its session
  -- has panicked. The next event is handled, and the invariant holds after it, or the thread of
  -- the server panics for a fault: an error of a system call, a new connection with the descriptor
  -- 0 or without an address, or a poisoned mutex.
  pub Reach-Served :
      {t : ℕ} {bad : List ℕ} {m : System os kernel} (l0 : Items ℕ ℕ) (moment : Moment)
      (token : Token) (revents : ℕ)
      → IsServer start t0 start l0
      → Reach file_info fuel root t0 start t bad m
      → At t moment
      → (l : Items ℕ ℕ) × Kept start t bad m l
        × Served m moment.until (serve root ((moment, (token, revents)) ∷ []) m)
  Reach-Served l0 moment token revents h reach at =
      let (l, kept) = Reach-Kept l0 h reach in
      (
        l,
        kept,
        serve-Served _ root ((moment, (token, revents)) ∷ []) _ l (at, tt)
            (Kept-IsServer start _ _ _ l kept),
      )
