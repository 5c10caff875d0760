-- ===== src/ThreadPool/Size.antt =====
-- threadpool/threadpool.rs: the ids and the number of the workers, over any run.
use minifto.Common.{
  ℕ, suc, not-ltb→le, ◌+◌, ◌-◌, ◌*◌, ◌≤◌, ◌<◌, ◌≡◌, refl, sym, ap, subst, ◌∙◌, List, [], ◌∷◌, ◌++◌,
  length, arith, ltb, Bool-cases, inl, inr,
}
use native.Mathlib.Nat.{suc-mul, mul-le-mul_right}
use minifto.ThreadPool.{
  ThreadPool, Workers, Status, Message, Label, Step, WorkerStep, Run, expand, push, notify, new,
  notify_one,
}
use minifto.ThreadPool.Totals.{length-notify_one, length-set}
use minifto.ThreadPool.Spawn.{
  Below, Below-set, crew, length-crew, Below-notify_one, expand_lem, grown-Below, spawn_all-crew,
}

rounds_left : (j cpus : ℕ) → j * cpus + 1 < cpus * 8 → suc j ≤ 8
rounds_left j cpus h = elim (Bool-cases (ltb j 8)) [
  | inl e ↦ ground (arith, e)
  | inr e ↦
      let more : 8 * cpus ≤ j * cpus = mul-le-mul_right cpus (not-ltb→le j 8 e) in
      absurd (omega (arith, more))
]

next_round : (n j cpus : ℕ) → n ≡ j * cpus + 1 → n + cpus ≡ suc j * cpus + 1
next_round n j cpus h = omega (arith, suc-mul j cpus)

module _ {J : Type 0} where
  -- The invariant of the map: its ids are the numbers below its size, and its size is one more than
  -- a multiple of `core_size`, up to eight of them.
  pub record IsSized (cpus : ℕ) (p : ThreadPool J) : Type 0 where
    pub rounds : ℕ
    pub at_most : rounds ≤ 8
    pub size : length p.workers ≡ rounds * cpus + 1
    pub ids : Below (length p.workers) p.workers
    pub core : p.core_size ≡ cpus
    pub max : p.max_size ≡ cpus * 8

  expand-IsSized : (cpus : ℕ) (p : ThreadPool J) → IsSized cpus p → IsSized cpus (expand p)
  expand-IsSized cpus p h = elim (expand_lem p h.ids) [
    | inl e ↦ subst (IsSized cpus) (sym e) h
    | inr e ↦ subst (IsSized cpus) (sym e.1) (record {
      rounds = suc h.rounds;
      at_most = rounds_left h.rounds cpus (omega (arith, e.0, h.size, h.max));
      size =
          length-crew (length p.workers) p.core_size p.workers
          ∙ ap (λ (m : ℕ). length p.workers + m) h.core
          ∙ next_round (length p.workers) h.rounds cpus h.size;
      ids = grown-Below (length p.workers) p.core_size p.workers h.ids refl;
      core = h.core;
      max = h.max;
    })
  ]

  -- The invariant holds for workers that have the same ids.
  same_ids :
      (cpus : ℕ) (p : ThreadPool J) (ws : Workers J) (q : List (Message J)) (d : ℕ)
      → IsSized cpus p
      → length ws ≡ length p.workers
      → Below (length p.workers) ws
      → IsSized cpus (record p { workers = ws; queue = q; due = d })
  same_ids cpus p ws q d h n b = record {
    rounds = h.rounds;
    at_most = h.at_most;
    size = n ∙ h.size;
    ids = subst (λ m. Below m ws) (sym n) b;
    core = h.core;
    max = h.max;
  }

  set-IsSized :
      (cpus : ℕ) (p : ThreadPool J) (l r : Workers J) (i : ℕ) (a b : Status J)
      (q : List (Message J))
      → IsSized cpus p
      → p.workers ≡ l ++ (i, a) ∷ r
      → IsSized cpus (record p { workers = l ++ (i, b) ∷ r; queue = q })
  set-IsSized cpus p l r i a b q h e =
      same_ids cpus p (l ++ (i, b) ∷ r) q p.due h (length-set l r i a b ∙ ap length (sym e))
        (Below-set (length p.workers) l r i a b (subst (Below (length p.workers)) e h.ids))

  push-IsSized :
      (cpus : ℕ) (m : Message J) (p : ThreadPool J) → IsSized cpus p → IsSized cpus (push m p)
  unfolding push
  push-IsSized cpus m p h = same_ids cpus p p.workers (p.queue ++ m ∷ []) (p.due + 1) h refl h.ids

  notify-IsSized : (cpus k : ℕ) (p : ThreadPool J) → IsSized cpus p → IsSized cpus (notify k p)
  unfolding notify
  notify-IsSized cpus k p h =
      same_ids cpus p (notify_one k p.workers) p.queue (p.due - 1) h (length-notify_one k p.workers)
        (Below-notify_one (length p.workers) k p.workers h.ids)

  pub Step-IsSized :
      (cpus : ℕ) (p p' : ThreadPool J) (a : Label J)
      → IsSized cpus p
      → Step p a p'
      → IsSized cpus p'
  Step-IsSized cpus p _ _ h (Step.works (WorkerStep.pops l r i m q e full)) =
      set-IsSized cpus p l r i _ _ q h e
  Step-IsSized cpus p _ _ h (Step.works (WorkerStep.waits l r i e empty)) =
      set-IsSized cpus p l r i _ _ _ h e
  Step-IsSized cpus p _ _ h (Step.works (WorkerStep.finishes l r i s e k)) =
      set-IsSized cpus p l r i _ _ _ h e
  Step-IsSized cpus p _ _ h (Step.works (WorkerStep.panics l r i s e k)) =
      set-IsSized cpus p l r i _ _ _ h e
  Step-IsSized cpus p _ _ h (Step.wakes l r i e) = set-IsSized cpus p l r i _ _ _ h e
  Step-IsSized cpus p _ _ h Step.expands = expand-IsSized cpus p h
  Step-IsSized cpus p _ _ h (Step.executes job) = push-IsSized cpus (Message.new_job job) p h
  Step-IsSized cpus p _ _ h Step.drops = push-IsSized cpus Message.terminate p h
  Step-IsSized cpus p _ _ h (Step.notifies k n e) = notify-IsSized cpus k p h

  pub Run-IsSized :
      (cpus : ℕ) (p p' : ThreadPool J) (trace : List (Label J))
      → IsSized cpus p
      → Run p trace p'
      → IsSized cpus p'
  Run-IsSized cpus p _ _ h Run.stop = h
  Run-IsSized cpus p p'' _ h (Run.next {p' = p'} {a = a} {trace = trace} step run) =
      Run-IsSized cpus p' p'' trace (Step-IsSized cpus p p' a h step) run

  pub new-crew : (cpus : ℕ) → (new {J = J} cpus 0).workers ≡ crew 0 (cpus + 1)
  unfolding new
  new-crew cpus = (spawn_all-crew 0 (cpus + 1) [] tt).0

  pub new-IsSized : (cpus : ℕ) → IsSized cpus (new cpus 0)
  unfolding new
  new-IsSized cpus = record {
    rounds = 1;
    at_most = omega arith;
    size = ap length (new-crew cpus) ∙ length-crew 0 (cpus + 1) [] ∙ omega arith;
    ids =
        subst (λ v. Below (length v) v) (sym (new-crew cpus)) (grown-Below 0 (cpus + 1) [] tt refl);
    core = refl;
    max = refl;
  }

  -- In every state that the pool of `new(0)` comes to, there is at most one worker more than
  -- `max_size`, and the ids of the workers are below their number.
  pub Run-new_bounds :
      (cpus : ℕ) (p : ThreadPool J) (trace : List (Label J))
      → Run (new cpus 0) trace p
      → (length p.workers ≤ p.max_size + 1) × Below (length p.workers) p.workers
  Run-new_bounds cpus p trace run =
      let h = Run-IsSized cpus (new cpus 0) p trace (new-IsSized cpus) run in
      let most : h.rounds * cpus ≤ 8 * cpus = mul-le-mul_right cpus h.at_most in
      (omega (arith, most, h.size, h.max), h.ids)
