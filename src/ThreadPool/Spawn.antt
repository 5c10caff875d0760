-- ===== src/ThreadPool/Spawn.antt =====
-- threadpool/threadpool.rs: the ids of the workers.
use minifto.Common.{
  ℕ, zero, suc, ◌-◌, ◌+◌, ◌<◌, ◌≡◌, refl, sym, ap, subst, ◌∙◌, [], ◌∷◌, ◌++◌, length, All,
  append_assoc, append-nil, length-append, ◌||◌, arith, ltb, leb, ◌==◌, Bool-cases, inl, inr, ◌&&◌,
  ◌⊎◌,
}
use minifto.ThreadPool.{
  ThreadPool, Workers, Status, Message, Label, Step, WorkerStep, Run, awake, asleep, spawn,
  spawn_all, execute, expand, push_back, new, notify_one, total,
}
use minifto.ThreadPool

module _ {J : Type 0} where
  abbrev pub Below : ℕ → Workers J → Type 0
  Below n ws = All (λ w. w.0 < n) ws

  pub Below-append : (n : ℕ) (l r : Workers J) → Below n l → Below n r → Below n (l ++ r)
  Below-append n [] r h k = k
  Below-append n (w ∷ l) r h k = (h.0, Below-append n l r h.1 k)

  pub Below-suc : (n : ℕ) (ws : Workers J) → Below n ws → Below (suc n) ws
  Below-suc n [] h = tt
  Below-suc n (w ∷ ws) h = (omega (arith, h.0), Below-suc n ws h.1)

  pub Below-set :
      (n : ℕ) (l r : Workers J) (i : ℕ) (a b : Status J)
      → Below n (l ++ (i, a) ∷ r)
      → Below n (l ++ (i, b) ∷ r)
  Below-set n [] r i a b h = h
  Below-set n (w ∷ l) r i a b h = (h.0, Below-set n l r i a b h.1)

  -- An id that no worker has is added, and no worker is replaced.
  pub spawn-append : (n : ℕ) (ws : Workers J) → Below n ws → spawn n ws ≡ ws ++ (n, awake) ∷ []
  unfolding spawn
  spawn-append n [] h = refl
  spawn-append n (w ∷ ws) h = ground (arith, h.0, spawn-append n ws h.1)

  -- `n` workers that are awake, of the ids from `id` on.
  unfoldable pub crew : (id n : ℕ) → Workers J
  crew id zero = []
  crew id (suc n) = (id, awake) ∷ crew (suc id) n

  pub spawn_all-crew :
      (id n : ℕ) (ws : Workers J)
      → Below id ws
      → (spawn_all id n ws ≡ ws ++ crew id n) × Below (id + n) (spawn_all id n ws)
  unfolding spawn_all crew
  spawn_all-crew id zero ws h = (sym (append-nil ws), subst (λ m. Below m ws) (omega arith) h)
  spawn_all-crew id (suc n) ws h =
      let e = spawn-append id ws h in
      let grown =
        subst (λ v. Below (suc id) v) (sym e)
          (Below-append (suc id) ws ((id, awake) ∷ []) (Below-suc id ws h) (omega arith, tt)) in
      let (f, b) = spawn_all-crew (suc id) n (spawn id ws) grown in
      (
        f ∙ ap (λ (v : Workers J). v ++ crew (suc id) n) e ∙ append_assoc ws _ _,
        subst (λ m. Below m (spawn_all (suc id) n (spawn id ws))) (omega arith) b,
      )

  pub length-crew : (id n : ℕ) (ws : Workers J) → length (ws ++ crew id n) ≡ length ws + n
  unfolding crew
  length-crew id zero ws = ap length (append-nil ws) ∙ omega arith
  length-crew id (suc n) ws =
      ap length (sym (append_assoc ws ((id, awake) ∷ []) (crew (suc id) n)))
      ∙ length-crew (suc id) n (ws ++ (id, awake) ∷ [])
      ∙ omega (arith, length-append ws ((id, awake) ∷ []))

  pub Below-notify_one : (n k : ℕ) (ws : Workers J) → Below n ws → Below n (notify_one k ws)
  unfolding notify_one
  Below-notify_one n k [] h = tt
  Below-notify_one n k ((i, asleep) ∷ ws) h =
      elim (Bool-cases ((k == 0) || (total ThreadPool.is_asleep ws == 0))) [
        | inl e ↦ rw (e, notify_one) h
        | inr e ↦ rw (e, notify_one) (h.0, Below-notify_one n (k - 1) ws h.1)
      ]
  Below-notify_one n k ((i, awake) ∷ ws) h = (h.0, Below-notify_one n k ws h.1)
  Below-notify_one n k ((i, Status.stopped) ∷ ws) h = (h.0, Below-notify_one n k ws h.1)
  Below-notify_one n k ((i, Status.died) ∷ ws) h = (h.0, Below-notify_one n k ws h.1)
  Below-notify_one n k ((i, Status.busy j) ∷ ws) h = (h.0, Below-notify_one n k ws h.1)
  Below-notify_one n k ((i, Status.last j) ∷ ws) h = (h.0, Below-notify_one n k ws h.1)

  pub expand_lem :
      (p : ThreadPool J)
      → Below (length p.workers) p.workers
      → (expand p ≡ p)
        ⊎ ((length p.workers < p.max_size)
            × (expand p ≡ record p { workers = p.workers ++ crew (length p.workers) p.core_size }))
  unfolding expand
  expand_lem p h =
      elim (Bool-cases (leb p.core_size (length p.queue) && ltb (length p.workers) p.max_size)) [
        | inl e ↦ inr (
          ground (arith, e),
          rw (e, (spawn_all-crew (length p.workers) p.core_size p.workers h).0) refl,
        )
        | inr e ↦ inl (rw (e) refl)
      ]

  pub grown-Below :
      (n k : ℕ) (ws : Workers J)
      → Below n ws
      → length ws ≡ n
      → Below (length (ws ++ crew n k)) (ws ++ crew n k)
  grown-Below n k ws h e =
      let (all, ids) = spawn_all-crew n k ws h in
      subst (λ m. Below m (ws ++ crew n k))
        (ap (λ (m : ℕ). m + k) (sym e) ∙ sym (length-crew n k ws)) (subst (Below (n + k)) all ids)
